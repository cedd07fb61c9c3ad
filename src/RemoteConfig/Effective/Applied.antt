-- ===== src/RemoteConfig/Effective/Applied.antt =====
-- Which overrides `Effective` applies, and what it leaves alone.
use emly_go_api.Base.{
  ℕ, true, false, ◌&&◌, not, none, some, List, [], ◌∷◌, ◌++◌, String, if◌then◌else◌, ◌≡◌, refl, sym,
  subst, All, ◌∙◌, Bool-cases, Option-cases, inl, inr, Sub, done, keep, skip,
}
use mathlib.Core.List.{append-nil, append_assoc}
use emly_go_api.RemoteConfig.Document.{Document, Override}
use emly_go_api.RemoteConfig.Validate.Sections.{Lib}
use emly_go_api.RemoteConfig.MergePatch.Apply.{Codec, apply_patch_to_document}
use emly_go_api.RemoteConfig.MergePatch.Apply.Untouched.{
  ReadsBack, apply_patch-kept, ReadsBack-kept,
}
use emly_go_api.RemoteConfig.Match.{Host, match, until_expired}
use emly_go_api.RemoteConfig.Effective.{
  excepted, applies, apply_override, apply_overrides, moment, effective,
}

module _ (lib : Lib) (codec : Codec) (h : Host) where
  -- The ids of the overrides that are not expired, match the host and do not except it, in order.
  abbrev pub applicable : ℕ → List Override → List String
  applicable now [] = []
  applicable now (ov ∷ rest) =
      let ids = applicable now rest in
      if not (until_expired lib ov.until now)
        && (match lib ov.match h && not (excepted lib codec h ov.except))
      then ov.id ∷ ids
      else ids

  applicable_hit :
      (now : ℕ) (ov : Override) (rest : List Override)
      → applies lib codec h now ov ≡ true
      → applicable now (ov ∷ rest) ≡ ov.id ∷ applicable now rest
  unfolding applies
  applicable_hit now ov rest hit = rw hit

  applicable_miss :
      (now : ℕ) (ov : Override) (rest : List Override)
      → applies lib codec h now ov ≡ false
      → applicable now (ov ∷ rest) ≡ applicable now rest
  unfolding applies
  applicable_miss now ov rest miss = rw miss

  module _ (now : ℕ) (d : Document) (ids : List String) (ov : Override) where
    skips :
        applies lib codec h now ov ≡ false → apply_override lib codec h now (d, ids) ov ≡ (d, ids)
    unfolding apply_override
    skips miss = rw (miss, apply_override)

    fails :
        applies lib codec h now ov ≡ true
        → apply_patch_to_document codec d ov.patch ≡ none
        → apply_override lib codec h now (d, ids) ov ≡ (d, ids)
    unfolding apply_override
    fails hit failed = rw (hit, apply_override) (rw failed)

    patches :
        (patched : Document)
        → applies lib codec h now ov ≡ true
        → apply_patch_to_document codec d ov.patch ≡ some patched
        → apply_override lib codec h now (d, ids) ov ≡ (patched, ids ++ ov.id ∷ [])
    unfolding apply_override
    patches patched hit e = rw (hit, apply_override) (rw e)

  -- What the loop makes of a state: more ids, and nothing else of the kept sections.
  record Outcome (now : ℕ) (d : Document) (ids : List String) (ovs : List Override)
      (out : Document × List String) : Type 0 where
    more : List String
    added : out.1 ≡ ids ++ more
    listed : Sub more (applicable now ovs)
    servers_kept : out.0.servers ≡ d.servers
    sites_kept : out.0.dc_lookup_map ≡ d.dc_lookup_map
    overrides_kept : out.0.overrides ≡ d.overrides

  passed_over :
      (now : ℕ) (d : Document) (ids : List String) (ov : Override) (rest : List Override)
      → applies lib codec h now ov ≡ true
      → (out : Document × List String) → Outcome now d ids rest out
      → Outcome now d ids (ov ∷ rest) out
  passed_over now d ids ov rest hit out o = record {
    more = o.more;
    added = o.added;
    listed = rw (applicable_hit now ov rest hit) (skip o.listed);
    servers_kept = o.servers_kept;
    sites_kept = o.sites_kept;
    overrides_kept = o.overrides_kept;
  }

  left_out :
      (now : ℕ) (d : Document) (ids : List String) (ov : Override) (rest : List Override)
      → applies lib codec h now ov ≡ false
      → (out : Document × List String) → Outcome now d ids rest out
      → Outcome now d ids (ov ∷ rest) out
  left_out now d ids ov rest miss out o = record {
    more = o.more;
    added = o.added;
    listed = rw (applicable_miss now ov rest miss) o.listed;
    servers_kept = o.servers_kept;
    sites_kept = o.sites_kept;
    overrides_kept = o.overrides_kept;
  }

  taken :
      (now : ℕ) (d : Document) (ids : List String) (ov : Override) (rest : List Override)
      (patched : Document)
      → applies lib codec h now ov ≡ true
      → ReadsBack codec d
      → apply_patch_to_document codec d ov.patch ≡ some patched
      → (out : Document × List String) → Outcome now patched (ids ++ ov.id ∷ []) rest out
      → Outcome now d ids (ov ∷ rest) out
  taken now d ids ov rest patched hit back e out o =
      let kept = apply_patch-kept codec d patched ov.patch back e in
      record {
        more = ov.id ∷ o.more;
        added = o.added ∙ append_assoc ids (ov.id ∷ []) o.more;
        listed = rw (applicable_hit now ov rest hit) (keep o.listed);
        servers_kept = o.servers_kept ∙ kept.0;
        sites_kept = o.sites_kept ∙ kept.1;
        overrides_kept = o.overrides_kept ∙ kept.2;
      }

  applied_from :
      (now : ℕ) (d : Document) (ids : List String) (ovs : List Override)
      → ReadsBack codec d
      → Outcome now d ids ovs (apply_overrides lib codec h now (d, ids) ovs)
  unfolding apply_overrides
  applied_from now d ids [] back = record {
    more = [];
    added = sym (append-nil ids);
    listed = done;
    servers_kept = refl;
    sites_kept = refl;
    overrides_kept = refl;
  }
  applied_from now d ids (ov ∷ rest) back = elim (Bool-cases (applies lib codec h now ov)) [
    | inl hit ↦ elim (Option-cases (apply_patch_to_document codec d ov.patch)) [
      | inl failed ↦
          rw (fails now d ids ov hit failed)
            (passed_over now d ids ov rest hit _ (applied_from now d ids rest back))
      | inr (patched, e) ↦ rw (patches now d ids ov patched hit e) (
          let kept = apply_patch-kept codec d patched ov.patch back e in
          taken now d ids ov rest patched hit back e _ (
            applied_from now patched (ids ++ ov.id ∷ []) rest
              (ReadsBack-kept codec d patched kept back)))
    ]
    | inr miss ↦
        rw (skips now d ids ov miss)
          (left_out now d ids ov rest miss _ (applied_from now d ids rest back))
  ]

  -- The ids that Effective reports are ids of overrides that are not expired, match the host and do
  -- not except it, in the order of the document and each as often as it stands there at most; and
  -- the servers, the site map and the overrides of the document come through unchanged, if
  -- json.Marshal and json.Unmarshal give these three back, whatever keys the patches have.
  pub effective-applicable :
      (doc : Document) (clock : ℕ)
      → ReadsBack codec doc
      → Sub
          (effective lib codec h doc clock).1
          (applicable (moment lib codec h h.now clock) doc.overrides)
        × ((effective lib codec h doc clock).0.servers ≡ doc.servers)
        × ((effective lib codec h doc clock).0.dc_lookup_map ≡ doc.dc_lookup_map)
        × ((effective lib codec h doc clock).0.overrides ≡ doc.overrides)
  unfolding effective
  effective-applicable doc clock back =
      let now = moment lib codec h h.now clock in
      let o = applied_from now doc [] doc.overrides back in
      (
        subst (λ ids. Sub ids (applicable now doc.overrides)) (sym o.added) o.listed,
        o.servers_kept,
        o.sites_kept,
        o.overrides_kept,
      )

  -- With no override that applies to the host, the effective document is the document.
  pub effective_none :
      (doc : Document) (clock : ℕ)
      → All (λ ov. applies lib codec h (moment lib codec h h.now clock) ov ≡ false) doc.overrides
      → effective lib codec h doc clock ≡ (doc, [])
  unfolding effective
  effective_none doc clock none_applies = go doc.overrides none_applies
    where
      now : ℕ
      now = moment lib codec h h.now clock

      go :
          (ovs : List Override)
          → All (λ ov. applies lib codec h now ov ≡ false) ovs
          → apply_overrides lib codec h now (doc, []) ovs ≡ (doc, [])
      go [] a = refl
      go (ov ∷ rest) (miss, a) = rw (skips now doc [] ov miss) (go rest a)
