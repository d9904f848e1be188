-- ===== src/Kv/Binding.antt =====
-- cloudflarekv/policy.go: the state of a binding, and the limit of a list.
pub mod Bounds
use goja_ext.Prelude.{
  ℕ, zero, suc, ◌*◌, Bool, List, [], ◌∷◌, Option, none, some, ◌⊎◌, inl, inr, ltb, ◌==◌, ◌&&◌,
  if◌then◌else◌, Bytes,
}
use goja_ext.Kv.Cache.{LruCache, new_lru_cache}
use goja_ext.Kv.Policy.{Limits, cloudflare_limits, second}

pub record BindingConfig : Type 0 where
  pub limits : Limits
  pub write_rate_interval : ℕ
  pub cache_capacity : ℕ
  pub cache_default_ttl : ℕ

-- The store itself is not part of the state.
pub record BindingState : Type 0 where
  pub config : BindingConfig
  pub last : List (Bytes × ℕ)
  pub cache : Option LruCache

abbrev pub default_config : BindingConfig
default_config = record {
  limits = cloudflare_limits;
  write_rate_interval = second;
  cache_capacity = 64 * 1024 * 1024;
  cache_default_ttl = 60 * second;
}

-- The loop over the options; a nil option is none.
unfoldable pub configured :
    List (Option (BindingConfig → BindingConfig)) → BindingConfig → BindingConfig
configured [] c = c
configured (none ∷ options) c = configured options c
configured (some option ∷ options) c = configured options (option c)

unfoldable pub new_binding_state : List (Option (BindingConfig → BindingConfig)) → BindingState
unfolding configured
new_binding_state options =
    let c = configured options default_config in
    record { config = c; last = []; cache = new_lru_cache c.cache_capacity }

-- `options.Limit`, an int: a number, or one below 0.
pub data ListLimit : Type 0 where
  limit : ℕ → ListLimit
  below_zero : ListLimit

pub data ListError : Type 0 where
  limit_not_positive limit_too_large : ListError

-- `validateListOptions`, behind the default: what it leaves in `options.Limit`.
abbrev pub check_limit : ℕ → ListLimit → ListError ⊎ ListLimit
check_limit maximum below_zero = inl limit_not_positive
check_limit maximum (limit n) =
    if ltb 0 maximum && ltb maximum n then inl limit_too_large else inr (limit n)

unfoldable pub validate_list_options : ℕ → ListLimit → ListError ⊎ ListLimit
validate_list_options maximum below_zero = check_limit maximum below_zero
validate_list_options maximum (limit n) =
    check_limit maximum (if n == 0 && ltb 0 maximum then limit maximum else limit n)
