-- ===== src/Tests/KvReader.antt =====
-- cloudflarekv/cache.go: instances for the reader, and policy.go: for the limit of a list.
use goja_ext.Prelude.{inr, true, false, List, [], ◌∷◌, none, ◌≡◌, refl, codes, Bytes}
use goja_ext.Kv.Cache.{LruCache}
use goja_ext.Kv.Binding.{limit, validate_list_options}
use goja_ext.Kv.Reader.{CachingReader}

abbrev empty_cache : LruCache
empty_cache = record { capacity = 100; size = 0; entries = []; order = []; next = 0 }

abbrev reader : CachingReader
reader = record {
  key = codes "k";
  metadata = [];
  expiration = none;
  ttl = 60;
  buffer = [];
  maximum = 5;
  cacheable = true;
  done = false;
}

abbrev pieces : List Bytes
pieces = codes "ab" ∷ [] ∷ []

default_limit : validate_list_options 1000 (limit 0) ≡ inr (limit 1000)
unfolding validate_list_options
default_limit = refl
