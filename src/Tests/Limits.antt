-- ===== src/Tests/Limits.antt =====
-- The rate limit and the quota.
use phantom_share.Prelude.{◌+◌, ◌*◌, ◌<◌, ◌≤◌, ◌≡◌, refl, some, [], ◌∷◌, arith}
use phantom_share.Sql.{delete, count, exists}
use phantom_share.RateLimit.{Slot, oldest, retry_after, sliding_window, second}
use phantom_share.RateLimit.Window.{
  start, request, logged, recent, live, run-recent, retry_after-frees,
}
use phantom_share.Quota.Scripts.{Redis, Limits, balance, charge, reserve_script, release_script}
use phantom_share.Quota.Balance.{Fits, Same, reserve_script-Fits, release_script-charge}

abbrev slot : Slot
slot = record { token = "t"; score = 2000000 }

run-recent_example : recent 10 7 (logged (sliding_window 5 10 1 "t" []).0.accepted 5 []) ≤ 1
unfolding exists
run-recent_example =
    run-recent {window = 10} {max = 1} (request 5 "t" start (omega arith) refl) 7 (omega arith)

retry_after-frees_example :
    live (60 * second) (3000000 + (retry_after (some 2000000) 60 3000000 + 1) * second) (slot ∷ [])
    < 1
unfolding count oldest
retry_after-frees_example =
    retry_after-frees 1 60 3000000 2000000 (slot ∷ []) (omega arith) refl (λ h. omega arith)

abbrev limits : Limits
limits = record { secret_limit = 2; byte_limit = 100 }

abbrev nothing : Redis
nothing = record { usages = []; held = []; due = [] }

abbrev one_user : Redis
one_user = record nothing {
  usages =
      record {
        user = 1;
        secrets = record { up = 1; down = 0 };
        bytes = record { up = 0; down = 0 };
      }
      ∷ [];
}

reserve_script-Fits_example :
    Fits limits (balance 1 (reserve_script 1 8 1 0 limits 600 (1, 0) nothing).1)
unfolding reserve_script phantom_share.Sql.select_one exists phantom_share.Sql.insert
reserve_script-Fits_example = reserve_script-Fits 1 8 1 0 limits 600 (1, 0) nothing refl

release_script-charge_example :
    (Same (balance 1 (release_script 1 8 (charge 1 8 1 0 600 one_user))) (balance 1 one_user))
    × ((release_script 1 8 (charge 1 8 1 0 600 one_user)).held ≡ [])
    × ((release_script 1 8 (charge 1 8 1 0 600 one_user)).due ≡ [])
unfolding exists
release_script-charge_example = release_script-charge 1 8 1 0 600 one_user refl refl refl
