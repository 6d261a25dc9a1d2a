-- ===== src/Plugin.antt =====
-- src/plugin.rs: how the cache is put into an RBatis. The lists of its hooks and of its transaction
-- listeners are all of it that the extension touches; both kinds are types of rbatis.
use rbatis_cache.Common.{Option, none, some, List, [], ◌∷◌, ◌++◌}

pub record Rbatis (Intercept Listener : Type 0) : Type 0 where
  pub intercepts : List Intercept
  pub listeners : List Listener

-- The hooks of the cache run first; a listener is added behind those that are there.
unfoldable pub install_cache :
    {Intercept Listener : Type 0}
    → Intercept
    → Option Listener
    → Rbatis Intercept Listener
    → Rbatis Intercept Listener
install_cache intercept listener rb = record {
  intercepts = intercept ∷ rb.intercepts;
  listeners = elim listener [ none ↦ rb.listeners | some l ↦ rb.listeners ++ l ∷ [] ];
}
