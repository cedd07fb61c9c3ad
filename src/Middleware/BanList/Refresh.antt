-- ===== src/Middleware/BanList/Refresh.antt =====
-- internal/middleware/ban.go: the snapshot across the rounds of `Run`.
use emly_go_api.Base.{Option, none, some, List, [], ◌∷◌, ◌++◌, String, ◌≡◌, refl, ◌∙◌, All}
use emly_go_api.Middleware.BanList.{Ban, BanList, reload, run}
use emly_go_api.Middleware.BanList.Matching.{admin_key-reload}

module _ (to_lower : String → String) where
  admin_key-run :
      (results : List (Option (List Ban))) (b : BanList)
      → (run to_lower results b).admin_key ≡ b.admin_key
  unfolding run
  admin_key-run [] b = refl
  admin_key-run (none ∷ results) b = admin_key-run results b
  admin_key-run (some rows ∷ results) b =
      admin_key-run results (reload to_lower (some rows) b) ∙ admin_key-reload to_lower b rows

  run-append :
      (xs ys : List (Option (List Ban))) (b : BanList)
      → run to_lower (xs ++ ys) b ≡ run to_lower ys (run to_lower xs b)
  unfolding run
  run-append [] ys b = refl
  run-append (x ∷ xs) ys b = run-append xs ys (reload to_lower x b)

  run_failures :
      (failures : List (Option (List Ban))) (b : BanList)
      → All (λ r. r ≡ none) failures
      → run to_lower failures b ≡ b
  unfolding run
  run_failures [] b h = refl
  run_failures (r ∷ failures) b (failed, h) = rw failed (run_failures failures b h)

  reload-admin_key :
      (rows : List Ban) (b c : BanList)
      → b.admin_key ≡ c.admin_key
      → reload to_lower (some rows) b ≡ reload to_lower (some rows) c
  unfolding reload
  reload-admin_key rows b c e = rw e

  -- Whatever was refreshed before, and however many queries fail after it, the snapshot is that of
  -- the last query that succeeded.
  pub run_last :
      (before failures : List (Option (List Ban))) (rows : List Ban) (b : BanList)
      → All (λ r. r ≡ none) failures
      → run to_lower (before ++ some rows ∷ failures) b ≡ reload to_lower (some rows) b
  unfolding run
  run_last before failures rows b h =
      run-append before (some rows ∷ failures) b
      ∙ (run_failures failures (reload to_lower (some rows) (run to_lower before b)) h
          ∙ reload-admin_key rows (run to_lower before b) b (admin_key-run before b))
