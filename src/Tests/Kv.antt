-- ===== src/Tests/Kv.antt =====
-- cloudflarekv/: runs and instances.
use goja_ext.Prelude.{
  ℕ, ◌≤◌, ◌≢◌, ap, Bytes, List, inl, inr, true, [], ◌∷◌, none, some, ◌≡◌, refl, codes, equal, All,
  arith, lookup,
}
use goja_ext.Kv.Cache.{Record, LruCache, put_in, get_in, record_size}
use goja_ext.Kv.Bulk.{get_many}
use goja_ext.Kv.Bulk.Coherent.{IsCoherentIf}
use goja_ext.Kv.Bulk.Whole.{get_many-reads}
use goja_ext.Kv.Cache.Agree.{IsDistinct, total, find_key}
use goja_ext.Kv.Cache.Evict.{IsValid, put_in-IsValid}
use goja_ext.Kv.Cache.Held.{get_in-calls-put_in}
use goja_ext.Kv.Cache.Other.{call_get, call_put, call_delete, calls, calls-IsValid}
use goja_ext.Kv.Policy.{begin_write, second}
use goja_ext.Kv.Policy.Rate.{writes, begin_write_spaced}

abbrev small : LruCache
small = record { capacity = 8; size = 0; entries = []; order = []; next = 0 }

abbrev rec : Record
rec = record { key = codes "a"; value = codes "xyz"; metadata = []; expiration = none }

small-IsValid : IsValid small
unfolding total IsDistinct lookup find_key
small-IsValid = record {
  sound = record { agree = λ k. refl; distinct = tt; below = tt; counted = refl };
  bounded = omega arith;
}

abbrev warm : LruCache
warm = put_in 1 (codes "b") rec true 100 small

warm-IsValid : IsValid warm
warm-IsValid = put_in-IsValid 1 (codes "b") rec true 100 small small-IsValid

-- The third record of four bytes pushes out the first.
run_evict :
    (get_in 5 (codes "a") (
      put_in 3
        (codes "c")
        rec
        true
        100
        (put_in 2 (codes "b") rec true 100 (put_in 1 (codes "a") rec true 100 small)))).0
    ≡ none
unfolding get_in put_in equal
run_evict = refl

-- A hit moves a record to the front, so that another one is pushed out.
run_hit :
    (get_in 5 (codes "a") (
      put_in 4
        (codes "c")
        rec
        true
        100
        (get_in 3
          (codes "a")
          (put_in 2 (codes "b") rec true 100 (put_in 1 (codes "a") rec true 100 small))).1)).0
    ≡ some (rec, true)
unfolding get_in put_in equal
run_hit = refl

run_rate : begin_write second 10 (codes "k") ((codes "k", 5) ∷ []) ≡ none
unfolding begin_write equal
run_rate = refl

calls-IsValid_example : IsValid (
    calls
      (call_put 1 (codes "a") rec true 100 ∷ call_get 2 (codes "a") ∷ call_delete (codes "a") ∷ [])
      small)
calls-IsValid_example =
    calls-IsValid
      (call_put 1 (codes "a") rec true 100 ∷ call_get 2 (codes "a") ∷ call_delete (codes "a") ∷ [])
      small small-IsValid

abbrev first : Bytes → ℕ
first [] = 0
first (c ∷ s) = c

warm_room : record_size (codes "a") rec ≤ warm.capacity
unfolding put_in equal
warm_room = omega arith

a_not_b : codes "a" ≢ codes "b"
a_not_b p = omega (arith, ap first p)

a_not_c : codes "a" ≢ codes "c"
a_not_c p = omega (arith, ap first p)

-- Between the put and the get: a get of the record, a get of another one when its time is over, and a
-- delete of a third.
get_in-calls-put_in_example :
    (get_in 60 (codes "a") (
      calls
        (call_get 20 (codes "a") ∷ call_get 500 (codes "b") ∷ call_delete (codes "c") ∷ [])
        (put_in 1 (codes "a") rec true 100 warm))).0
    ≡ some (rec, true)
get_in-calls-put_in_example =
    get_in-calls-put_in 1 60 100 (codes "a") rec true
      (call_get 20 (codes "a") ∷ call_get 500 (codes "b") ∷ call_delete (codes "c") ∷ []) warm
      warm-IsValid (omega arith) (omega arith) warm_room
      (inl (omega arith), (inr a_not_b, (a_not_c, tt))) (omega arith)

small_empty : (get_in 1 (codes "a") small).0 ≡ none
unfolding get_in
small_empty = refl

first_write : begin_write second 10 (codes "k") [] ≡ some ((codes "k", 10) ∷ [])
unfolding begin_write
first_write = refl

begin_write_spaced_example :
    begin_write second 500 (codes "k") (writes second ((20, codes "j") ∷ []) ((codes "k", 10) ∷ []))
    ≡ none
begin_write_spaced_example =
    begin_write_spaced second 10 500 (codes "k") ((20, codes "j") ∷ []) [] ((codes "k", 10) ∷ [])
      (omega arith) first_write (omega arith, tt) (omega arith)

abbrev table : List (Bytes × Record)
table = (codes "a", rec) ∷ []

abbrev wanted : List Bytes
wanted = codes "a" ∷ codes "b" ∷ codes "a" ∷ []

table_fetched :
    (ks : List Bytes) (m : List (Bytes × Record))
    → some table ≡ some m
    → All (λ x. lookup x m ≡ lookup x table) ks
table_fetched [] m h = tt
table_fetched (k ∷ ks) m h = (ground arith, table_fetched ks m h)

table_read : (get_many (λ n. n) (λ ks. some table) 100 50 wanted (some small)).0 ≡ inr table
unfolding get_many equal
table_read = refl

small-IsCoherentIf : IsCoherentIf (λ x. lookup x table) (some small)
unfolding lookup
small-IsCoherentIf k e h = cc

get_many-reads_example :
    All (λ k. lookup k table ≡ lookup k table) wanted
    × IsCoherentIf
        (λ x. lookup x table)
        (get_many (λ n. n) (λ ks. some table) 100 50 wanted (some small)).1
get_many-reads_example =
    get_many-reads (λ x. lookup x table) (λ n. n) (λ ks. some table) 100 50 wanted (some small)
      table small-IsCoherentIf table_fetched table_read
