-- ===== src/WebSocket/Listeners/Distinct.antt =====
-- websocket/websocket.go: a listener is there once at most.
use goja_ext.Prelude.{
  ℕ, suc, ◌+◌, Bool, true, false, List, [], ◌∷◌, ◌++◌, Bytes, equal, equal_iff, lookup,
  lookup-delete_key, ◌==◌, ==_iff, if◌then◌else◌, if_split, ◌≡◌, refl, sym, ap, ◌∙◌, ◌≤◌, arith,
}
use goja_ext.WebSocket.Manager.{unregister}
use goja_ext.WebSocket.Listeners.{
  nullish, plain, callback, EventTarget, snapshot_listeners, put_listeners, listed,
  add_socket_listener, remove_socket_listener, Use, adds, removes, handles, apply_use, apply_uses,
  new_target,
}

-- How often.
unfoldable pub times : ℕ → List ℕ → ℕ
times l [] = 0
times l (x ∷ xs) = let rest = times l xs in if x == l then suc rest else rest

times-snoc :
    (l m : ℕ) (xs : List ℕ) → times l (xs ++ m ∷ []) ≡ times l xs + (if m == l then 1 else 0)
unfolding times
times-snoc l m [] = ground arith
times-snoc l m (x ∷ xs) = ground (arith, times-snoc l m xs)

times-not_listed : (l : ℕ) (xs : List ℕ) → listed l xs ≡ false → times l xs ≡ 0
unfolding times
times-not_listed l [] h = refl
times-not_listed l (x ∷ xs) h = ground (arith, times-not_listed l xs)

times-listed : (l : ℕ) (xs : List ℕ) → listed l xs ≡ true → 1 ≤ times l xs
unfolding times
times-listed l [] h = absurd (ground arith)
times-listed l (x ∷ xs) h = ground (arith, times-listed l xs)

times-unregister :
    (l m : ℕ) (xs : List ℕ)
    → listed m xs ≡ true
    → times l xs ≡ times l (unregister m xs) + (if m == l then 1 else 0)
unfolding times unregister
times-unregister l m [] h = absurd (ground arith)
times-unregister l m (x ∷ xs) h = ground (arith, times-unregister l m xs, ==_iff x m)

snapshot-put :
    (k : Bytes) (ls : List ℕ) (key : Bytes) (t : EventTarget)
    → snapshot_listeners key (put_listeners k ls t)
      ≡ (if equal key k then ls else snapshot_listeners key t)
unfolding snapshot_listeners put_listeners lookup
snapshot-put k ls key t = ground (arith, lookup-delete_key key k t.event_listeners)

-- What a script's uses make of one function as a listener of one event, by the uses in order.
abbrev pub decide : Bytes → ℕ → Use → Bool → Bool
decide key l (adds k nullish) b = b
decide key l (adds k (plain v)) b = b
decide key l (adds k (callback m)) b = if equal key k then (if m == l then true else b) else b
decide key l (removes k nullish) b = b
decide key l (removes k (plain v)) b = b
decide key l (removes k (callback m)) b = if equal key k then (if m == l then false else b) else b
decide key l (handles open_value message_value close_value error_value) b = b

abbrev pub listens : Bytes → ℕ → List Use → Bool → Bool
listens key l [] b = b
listens key l (u ∷ us) b = listens key l us (decide key l u b)

abbrev pub once_if : Bool → ℕ
once_if true = 1
once_if false = 0

module _ (key : Bytes) (l : ℕ) where
  abbrev count : EventTarget → ℕ
  count t = times l (snapshot_listeners key t)

  put_counts :
      (k : Bytes) (ls : List ℕ) (t : EventTarget)
      → count (put_listeners k ls t) ≡ (if equal key k then times l ls else count t)
  put_counts k ls t = ap (λ xs. times l xs) (snapshot-put k ls key t) ∙ by_test (equal key k)
    where
      by_test :
          (b : Bool)
          → times l (if b then ls else snapshot_listeners key t)
            ≡ (if b then times l ls else count t)
      by_test true = refl
      by_test false = refl

  same_event :
      (k : Bytes) (t : EventTarget)
      → equal key k ≡ true
      → times l (snapshot_listeners k t) ≡ count t
  same_event k t e = ap (λ x. times l (snapshot_listeners x t)) (sym ((equal_iff key k).0 e))

  same_function : (m : ℕ) (xs : List ℕ) → (m == l) ≡ true → times m xs ≡ times l xs
  same_function m xs e = ap (λ x. times x xs) ((==_iff m l).0 e)

  add_counts :
      (k : Bytes) (m : ℕ) (t : EventTarget) (b : Bool)
      → count t ≡ once_if b
      → count (add_socket_listener k (callback m) t)
        ≡ once_if (decide key l (adds k (callback m)) b)
  unfolding add_socket_listener
  add_counts k m t b h =
      let ls = snapshot_listeners k t in
      if_split (λ d. count d ≡ once_if (decide key l (adds k (callback m)) b)) (listed m ls) _ _
        (λ there. ground (arith, h, same_event k t, same_function m ls, times-listed m ls there))
        (λ new. ground (
          arith,
          h,
          put_counts k (ls ++ m ∷ []) t,
          times-snoc l m ls,
          same_event k t,
          same_function m ls,
          times-not_listed m ls new,
        ))

  remove_counts :
      (k : Bytes) (m : ℕ) (t : EventTarget) (b : Bool)
      → count t ≡ once_if b
      → count (remove_socket_listener k (callback m) t)
        ≡ once_if (decide key l (removes k (callback m)) b)
  unfolding remove_socket_listener
  remove_counts k m t b h =
      let ls = snapshot_listeners k t in
      if_split (λ d. count d ≡ once_if (decide key l (removes k (callback m)) b)) (listed m ls) _ _
        (λ there. ground (
          arith,
          h,
          put_counts k (unregister m ls) t,
          times-unregister l m ls there,
          same_event k t,
          same_function m ls,
          times-listed m ls there,
        ))
        (λ gone. ground (arith, h, same_event k t, same_function m ls, times-not_listed m ls gone))

  use_counts :
      (u : Use) (t : EventTarget) (b : Bool)
      → count t ≡ once_if b
      → count (apply_use u t) ≡ once_if (decide key l u b)
  unfolding apply_use add_socket_listener remove_socket_listener snapshot_listeners
  use_counts (adds k nullish) t b h = h
  use_counts (adds k (plain v)) t b h = h
  use_counts (adds k (callback m)) t b h = add_counts k m t b h
  use_counts (removes k nullish) t b h = h
  use_counts (removes k (plain v)) t b h = h
  use_counts (removes k (callback m)) t b h = remove_counts k m t b h
  use_counts (handles v w x y) t b h = h

  uses_count :
      (us : List Use) (t : EventTarget) (b : Bool)
      → count t ≡ once_if b
      → count (apply_uses us t) ≡ once_if (listens key l us b)
  unfolding apply_uses
  uses_count [] t b h = h
  uses_count (u ∷ us) t b h = uses_count us (apply_use u t) (decide key l u b) (use_counts u t b h)

-- After any adding and removing of listeners and setting of handlers on a new connection, a function is
-- among the listeners of an event once when the last use that names both added it, and not at all
-- otherwise; adding what is no function, and removing what is not there, count for nothing.
pub apply_uses-listens :
    (key : Bytes) (l : ℕ) (us : List Use)
    → times l (snapshot_listeners key (apply_uses us new_target)) ≡ once_if (listens key l us false)
unfolding new_target snapshot_listeners times lookup
apply_uses-listens key l us = uses_count key l us new_target false refl
