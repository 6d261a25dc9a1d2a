-- ===== src/Listener/Laws.antt =====
-- The life of a transaction in the cache.
use rbatis_cache.Common.{ℕ, ◌≡◌, ◌≢◌, refl, inl, inr, true, none, ok, id_key, arith, Option-cases}
use rbatis_cache.Backend.{CacheBackend}
use rbatis_cache.DashMap
use rbatis_cache.DashMap.{get-insert, get-insert_self, get-remove, same_self}
use rbatis_cache.External.{External}
use rbatis_cache.Listener.{
  CacheTransactionListener, TransactionEvent, TransactionEventType, begin, commit_success,
  commit_failed, rollback, rollback_failed, handle, on_event, on_commit,
}
use rbatis_cache.Shared.{State}

module _ (x : External) (b : CacheBackend) (l : CacheTransactionListener) where
  -- Every event but the begin of a transaction leaves it without a buffer, if the listener defers;
  -- none of them is answered with an error.
  pub on_event-ends :
      (event : TransactionEvent) (s : State x b)
      → l.defer_mode ≡ true
      → event.event_type ≢ begin
      → ((on_event x b l event s).0 ≡ ok tt)
        × (DashMap.get event.tx_id (on_event x b l event s).1.tx_buffers ≡ none)
  unfolding on_event handle on_commit
  on_event-ends event s mode ne = (refl, go event.event_type event.tx_id ne)
    where
      gone : (id : ℕ) → DashMap.get id (DashMap.remove id s.tx_buffers) ≡ none
      gone id = ground (arith, get-remove id id s.tx_buffers, same_self id)

      go :
          (type : TransactionEventType) (id : ℕ)
          → type ≢ begin
          → DashMap.get id (handle x b l type id s).tx_buffers ≡ none
      go begin id ne = absurd (ne refl)
      go commit_success id ne = elim (Option-cases (DashMap.get id s.tx_buffers)) [
        | inl missing ↦ ground arith
        | inr (buf, there) ↦ ground (arith, gone id)
      ]
      go commit_failed id ne = gone id
      go rollback id ne = gone id
      go rollback_failed id ne = gone id
