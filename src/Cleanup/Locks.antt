-- ===== src/Cleanup/Locks.antt =====
-- The locks of app/services/cleanup_service.py.
use mathlib.Core.Path.{subst}
use phantom_share.Prelude.{
  ℕ, ◌+◌, ◌*◌, ◌<◌, ◌≡◌, ◌≢◌, refl, sym, String, none, some, List, eq_iff, str_eq-ne, lt→ltb, arith,
}
use phantom_share.Sql.{select_one, insert, delete}
use phantom_share.Sql.Laws.{select_one-insert_new, exists-delete_narrow, exists-select_one}
use phantom_share.Cleanup.{Lock, held, lock_is, acquire_lock, release_lock, second}

acquired :
    (key token : String) (ttl now : ℕ) (locks : List Lock) {t : String} {locks' : List Lock}
    → acquire_lock key ttl token now locks ≡ (some t, locks')
    → insert
        (record { key = key; token = token; expires_at = now + ttl * second })
        (delete (lock_is key) locks)
      ≡ locks'
unfolding acquire_lock
acquired key token ttl now locks h = ground arith

-- While a lock is held, nobody else gets it, and nobody else can release it: after an acquisition, and
-- before the lock expires, a release with another token leaves it, and an acquisition fails.
pub acquire_lock-excludes :
    (key token other mine : String) (ttl ttl' now later : ℕ) (locks : List Lock) {t : String}
    {locks' : List Lock}
    → other ≢ token
    → later < now + ttl * second
    → acquire_lock key ttl token now locks ≡ (some t, locks')
    → (release_lock key other later locks' ≡ locks')
      × (acquire_lock key ttl' mine later locks' ≡ (none, locks'))
unfolding acquire_lock release_lock
acquire_lock-excludes key token other mine ttl ttl' now later locks {t} {locks'} ne h0 h =
    let lock : Lock = record { key = key; token = token; expires_at = now + ttl * second } in
    let there : select_one (held key later) locks' ≡ some lock =
      subst (λ x. select_one (held key later) x ≡ some lock) (acquired key token ttl now locks h)
        (select_one-insert_new (held key later) lock (delete (lock_is key) locks)
          (exists-delete_narrow (held key later) (lock_is key) locks (λ r e. ground arith))
          (rw ((eq_iff key key).1 refl, lt→ltb later (now + ttl * second) h0))) in
    (
      rw (there, str_eq-ne token other (λ e. ne (sym e))),
      rw (exists-select_one (held key later) locks' there),
    )
