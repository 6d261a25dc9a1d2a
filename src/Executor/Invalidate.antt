-- ===== src/Executor/Invalidate.antt =====
-- What a statement that changes rows does to the caches.
use rbatis_cache.Common.{
  ℕ, ◌<◌, ◌≡◌, refl, true, false, some, none, Text, Duration, ok, lt→ltb, arith, u64_max, id_key,
  text_key,
}
use rbatis_cache.Backend.{CacheBackend}
use rbatis_cache.Backend.Laws.{LawfulBackend}
use rbatis_cache.DashMap
use rbatis_cache.DashMap.{get-insert_self, get-update, same_self}
use rbatis_cache.Executor.Types.{Executor, RbatisCacheInterceptor, is_in_transaction}
use rbatis_cache.Executor.After.{after_exec, invalidate, after_bump, mark_namespace}
use rbatis_cache.External.{External}
use rbatis_cache.L1
use rbatis_cache.L1.Laws.{get-cleared}
use rbatis_cache.Policy.{defer}
use rbatis_cache.Shared.{State}
use rbatis_cache.Transactional
use rbatis_cache.Transactional.{TransactionalCacheBuffer}

module _ (x : External) (b : CacheBackend) (self : RbatisCacheInterceptor) where
  -- With a lawful backend that returns a generation below the largest u64, a statement outside a
  -- transaction that changed rows gives the namespace that generation, and its executor gets
  -- nothing from the L1 cache any more.
  pub after_exec-outside :
      (deadline : ℕ → Duration → ℕ) (laws : LawfulBackend b deadline)
      (task_id later instant g rows_affected : ℕ) (rb : Executor) (asked : Text) (s : State x b)
      → 0 < rows_affected
      → is_in_transaction rb ≡ false
      → (b.bump_generation s.now self.namespace s.backend).0 ≡ ok g
      → g < u64_max
      → ((after_exec x b self task_id rb (ok rows_affected) s).0 ≡ ok tt)
        × ((b.generation later self.namespace
              (after_exec x b self task_id rb (ok rows_affected) s).1.backend).0
            ≡ ok g)
        × ((L1.get instant rb.id asked (after_exec x b self task_id rb (ok rows_affected) s).1.l1).0
            ≡ none)
  unfolding after_exec invalidate after_bump
  after_exec-outside deadline laws task_id later instant g rows_affected rb asked s changed outside
        bumped small =
      rw (lt→ltb 0 rows_affected changed, outside, bumped)
        (
          refl,
          laws.generation-bump s.now later g self.namespace s.backend bumped small,
          get-cleared instant rb.id asked s.l1,
        )

  -- In a deferring transaction that has a buffer, it leaves the backend alone; its executor gets
  -- nothing from the L1 cache any more, and the buffer, whose entries stay, is marked to invalidate
  -- the namespace.
  pub after_exec-inside :
      (task_id instant rows_affected : ℕ) (rb : Executor) (asked : Text)
      (buf : TransactionalCacheBuffer x.Value) (s : State x b)
      → 0 < rows_affected
      → is_in_transaction rb ≡ true
      → self.policy.transaction_mode ≡ defer
      → DashMap.get task_id s.tx_buffers ≡ some buf
      → ((after_exec x b self task_id rb (ok rows_affected) s).0 ≡ ok tt)
        × ((after_exec x b self task_id rb (ok rows_affected) s).1.backend ≡ s.backend)
        × ((L1.get instant rb.id asked (after_exec x b self task_id rb (ok rows_affected) s).1.l1).0
            ≡ none)
        × ((marked : TransactionalCacheBuffer x.Value) × (DashMap.get task_id
                (after_exec x b self task_id rb (ok rows_affected) s).1.tx_buffers
              ≡ some marked)
            × (DashMap.get self.namespace marked.clear_namespaces ≡ some tt)
            × (marked.pending_add ≡ buf.pending_add))
  unfolding after_exec invalidate mark_namespace Transactional.clear_namespace
  after_exec-inside task_id instant rows_affected rb asked buf s changed inside mode there =
      rw (lt→ltb 0 rows_affected changed, inside, mode)
        (
          refl,
          refl,
          get-cleared instant rb.id asked s.l1,
          (
            Transactional.clear_namespace self.namespace buf,
            ground (
              arith,
              get-update task_id task_id (Transactional.clear_namespace self.namespace)
                  s.tx_buffers,
              same_self task_id,
            ),
            get-insert_self self.namespace tt buf.clear_namespaces,
            refl,
          ),
        )
