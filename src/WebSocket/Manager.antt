-- ===== src/WebSocket/Manager.antt =====
-- websocket/websocket.go, WebSocketManager: the connections that a module owns, by their numbers.
use goja_ext.Prelude.{
  ℕ, suc, false, List, [], ◌∷◌, ◌++◌, ◌==◌, ==_self, if◌then◌else◌, if_split, length, All, ◌≡◌,
  refl, arith, length-append,
}

unfoldable pub register : ℕ → List ℕ → List ℕ
register c connections = connections ++ c ∷ []

-- The first occurrence goes.
unfoldable pub unregister : ℕ → List ℕ → List ℕ
unregister c [] = []
unregister c (d ∷ connections) =
    let rest = unregister c connections in if d == c then connections else d ∷ rest

-- The connections that CloseAll closes, and what the manager keeps.
unfoldable pub close_all : List ℕ → List ℕ × List ℕ
close_all connections = (connections, [])

unfoldable pub manager_len : List ℕ → ℕ
manager_len connections = length connections

-- A new connection is registered last, and unregistering it leaves the others as they were: their order
-- and their number.
pub unregister-register :
    (c : ℕ) (connections : List ℕ)
    → All (λ d. (d == c) ≡ false) connections
    → (unregister c (register c connections) ≡ connections)
      × (manager_len (register c connections) ≡ suc (manager_len connections))
unfolding register unregister manager_len
unregister-register c connections others =
    (back connections others, omega (arith, length-append connections (c ∷ [])))
  where
    back : (ds : List ℕ) → All (λ d. (d == c) ≡ false) ds → unregister c (ds ++ c ∷ []) ≡ ds
    back [] h = if_split (λ x. x ≡ []) (c == c) _ _ (λ p. refl) (λ p. ground (arith, ==_self c))
    back (d ∷ ds) (h, hs) = ground (arith, back ds hs)
