-- ===== src/Tests/Cleaning.antt =====
-- The workers: a lock, a sweep and the deletion of an expired secret.
use phantom_share.Prelude.{All, ◌&&◌, ◌≡◌, refl, true, false, none, List, [], ◌∷◌, arith, eq_iff}
use phantom_share.Sql.{count, select_one, select_top, exists}
use phantom_share.Schema.{secret_is, delete_secrets}
use phantom_share.Cleanup.{Lock, acquire_lock, release_lock, sweep}
use phantom_share.Cleanup.Locks.{acquire_lock-excludes}
use phantom_share.Cleanup.Sweep.{IsReadable, is_readable, sweep_lem}
use phantom_share.Cleanup.Storage.{Depot}
use phantom_share.Cleanup.Worker.{expire}
use phantom_share.Cleanup.Absence.{expire-unlogged}
use phantom_share.Tests.Tables.{one_secret}

pub false-ne-true : false ≡ true → ⊥
false-ne-true h = cc

abbrev locks : List Lock
locks = record { key = "k"; token = "t"; expires_at = 30000005 } ∷ []

acquire_lock-excludes_example :
    (release_lock "k" "u" 7 locks ≡ locks) × (acquire_lock "k" 30 "m" 7 locks ≡ (none, locks))
unfolding acquire_lock exists phantom_share.Sql.insert phantom_share.Sql.delete
acquire_lock-excludes_example =
    acquire_lock-excludes "k" "t" "u" "m" 30 30 5 7 [] {t = "t"} {locks' = locks}
      (λ e. false-ne-true ((eq_iff "u" "t").1 e)) (omega arith) refl

sweep_lem_example :
    All (IsReadable 5) (sweep 5 one_secret).secrets
    × (count (secret_is 2) (sweep 5 one_secret).secrets
        ≡ count (λ s. secret_is 2 s && is_readable 5 s) one_secret.secrets)
sweep_lem_example = sweep_lem 5 one_secret (secret_is 2) (λ s o. refl)

abbrev depot : Depot
depot = record { db = one_secret; redis = none; objects = [] }

expire-unlogged_example : (expire 2 5 depot).db ≡ delete_secrets (secret_is 2) 5 one_secret
expire-unlogged_example = expire-unlogged 2 5 depot
