-- ===== src/Fetch/Upload/Balance.antt =====
-- fetch/upload.go: there is one thing to do at most, and no byte of the chunks is out of place.
use goja_ext.Prelude.{
  ℕ, suc, ◌+◌, false, List, [], ◌∷◌, ◌++◌, append-nil, append_assoc, Option, none, some, Bytes,
  length, ◌≡◌, refl, sym, ap, ◌∙◌, arith,
}
use goja_ext.Fetch.Upload.{
  UploadItem, chunk, failed, end_of_stream, LoopAt, free, finishing, releasing, failing, enqueuing,
  cancelling, ReadAt, reading_items, scheduling, Upload,
}

abbrev pub item_bytes : UploadItem → Bytes
item_bytes (chunk b) = b
item_bytes (failed err) = []
item_bytes end_of_stream = []

abbrev pub items_bytes : List UploadItem → Bytes
items_bytes [] = []
items_bytes (i ∷ is) = item_bytes i ++ items_bytes is

abbrev pub current_bytes : Option UploadItem → Bytes
current_bytes none = []
current_bytes (some i) = item_bytes i

abbrev pub loop_bytes : LoopAt → Bytes
loop_bytes free = []
loop_bytes (finishing i) = item_bytes i
loop_bytes (releasing i) = item_bytes i
loop_bytes (failing err) = []
loop_bytes (enqueuing i b) = item_bytes i
loop_bytes cancelling = []

abbrev pub current_tokens : Option UploadItem → ℕ
current_tokens none = 0
current_tokens (some i) = 1

abbrev pub loop_tokens : LoopAt → ℕ
loop_tokens free = 0
loop_tokens (finishing i) = 1
loop_tokens (releasing i) = 1
loop_tokens (failing err) = 1
loop_tokens (enqueuing i b) = 1
loop_tokens cancelling = 0

abbrev pub read_tokens : ReadAt → ℕ
read_tokens reading_items = 0
read_tokens scheduling = 1

-- What is under way, the nearest to Read first: the current item, the channel, the loop, Read's next
-- request, and the reads that wait on the loop or for a promise.
module _ (c : Option UploadItem) (is : List UploadItem) (l : LoopAt) (r : ReadAt) (q p : ℕ) where
  abbrev pub tokens : ℕ
  tokens = current_tokens c + length is + loop_tokens l + read_tokens r + q + p

abbrev pub in_flight : Option UploadItem → List UploadItem → LoopAt → Bytes
in_flight c is l = current_bytes c ++ (items_bytes is ++ loop_bytes l)

-- One thing is under way, and Read's bytes and those under way are the chunks'; or nothing is, and Read's
-- are the first of them.
pub data Balanced (c : Option UploadItem) (is : List UploadItem) (l : LoopAt) (r : ReadAt) (q p : ℕ)
    (given taken : Bytes) : Type 0 where
  under_way :
      tokens c is l r q p ≡ 1
      → given ++ in_flight c is l ≡ taken
      → Balanced c is l r q p given taken
  over :
      tokens c is l r q p ≡ 0
      → (lost : Bytes) → given ++ lost ≡ taken
      → Balanced c is l r q p given taken

abbrev pub Balance : Upload → Type 0
Balance u = Balanced u.current u.items u.loop_at u.read_at u.queued_reads u.reads u.given u.taken

module _ {c c' : Option UploadItem} {is is' : List UploadItem} {l l' : LoopAt} {r r' : ReadAt}
    {q q' p p' : ℕ} {g t : Bytes} where
  -- It goes from one place to another, with its bytes.
  pub moves :
      Balanced c is l r q p g t
      → tokens c' is' l' r' q' p' ≡ tokens c is l r q p
      → in_flight c' is' l' ≡ in_flight c is l
      → Balanced c' is' l' r' q' p' g t
  moves (under_way one e) same bytes = under_way (same ∙ one) (ap (λ b. g ++ b) bytes ∙ e)
  moves (over nil lost e) same bytes = over (same ∙ nil) lost e

  -- It is dropped.
  pub loses :
      Balanced c is l r q p g t
      → suc (tokens c' is' l' r' q' p') ≡ tokens c is l r q p
      → Balanced c' is' l' r' q' p' g t
  loses (under_way one e) fewer = over (omega (arith, one, fewer)) (in_flight c is l) e
  loses (over nil lost e) fewer = absurd (omega (arith, nil, fewer))

module _ {is : List UploadItem} {r : ReadAt} {q p : ℕ} {g t : Bytes} where
  -- A chunk comes from the loop.
  pub takes_chunk :
      (c : Option UploadItem) (b : Bytes)
      → Balanced c is free r q (suc p) g t
      → Balanced c is (enqueuing (chunk b) false) r q p g (t ++ b)
  takes_chunk c b (under_way one e) =
      let cb = current_bytes c in
      let ib = items_bytes is in
      under_way (omega (arith, one)) (
        ap (λ x. g ++ (cb ++ (x ++ b))) (sym (append-nil ib))
        ∙ ap (λ x. g ++ x) (sym (append_assoc cb (ib ++ []) b))
        ∙ sym (append_assoc g (cb ++ (ib ++ [])) b)
        ∙ ap (λ x. x ++ b) e)
  takes_chunk c b (over nil lost e) = absurd (omega (arith, nil))

  -- Read gives out the first part of a chunk.
  pub gives_part :
      (l : LoopAt) (x y rest : Bytes)
      → y ++ rest ≡ x
      → Balanced (some (chunk x)) is l r q p g t
      → Balanced (some (chunk rest)) is l r q p (g ++ y) t
  gives_part l x y rest whole (under_way one e) =
      let behind = items_bytes is ++ loop_bytes l in
      under_way (omega (arith, one)) (
        append_assoc g y (rest ++ behind)
        ∙ ap (λ z. g ++ z) (sym (append_assoc y rest behind))
        ∙ ap (λ z. g ++ (z ++ behind)) whole
        ∙ e)
  gives_part l x y rest whole (over nil lost e) = absurd (omega (arith, nil))

no_items : (xs : List UploadItem) → length xs ≡ 0 → xs ≡ []
no_items [] h = refl
no_items (x ∷ xs) h = absurd (omega (arith, h))

no_loop_bytes : (x : LoopAt) → loop_tokens x ≡ 0 → loop_bytes x ≡ []
no_loop_bytes free h = refl
no_loop_bytes (finishing x) h = absurd (omega (arith, h))
no_loop_bytes (releasing x) h = absurd (omega (arith, h))
no_loop_bytes (failing x) h = refl
no_loop_bytes (enqueuing x b) h = absurd (omega (arith, h))
no_loop_bytes cancelling h = refl

-- With a current item there is nothing else: what Read gave and the item's bytes are the chunks'.
pub all_given :
    {is : List UploadItem} {l : LoopAt} {r : ReadAt} {q p : ℕ} {g t : Bytes} (i : UploadItem)
    → Balanced (some i) is l r q p g t
    → (g ++ item_bytes i ≡ t) × (q ≡ 0) × (p ≡ 0) × (is ≡ []) × (loop_tokens l ≡ 0)
all_given i (over nil lost e) = absurd (omega (arith, nil))
all_given {is} {l} {r} {q} {p} {g} i (under_way one e) =
    let nothing_behind : items_bytes is ++ loop_bytes l ≡ [] =
      ap (λ x. items_bytes x ++ loop_bytes l) (no_items is (omega (arith, one)))
      ∙ no_loop_bytes l (omega (arith, one)) in
    (
      ap (λ z. g ++ z)
            (sym (append-nil (item_bytes i)) ∙ ap (λ z. item_bytes i ++ z) (sym nothing_behind))
          ∙ e,
      omega (arith, one),
      omega (arith, one),
      no_items is (omega (arith, one)),
      omega (arith, one),
    )

-- What the loop puts into the channel finds it empty, so the loop never waits.
pub has_room :
    {c : Option UploadItem} {r : ReadAt} {q p : ℕ} {g t : Bytes} (is : List UploadItem) (l : LoopAt)
    → Balanced c is l r q p g t
    → loop_tokens l ≡ 1
    → is ≡ []
has_room is l (under_way one e) h = no_items is (omega (arith, one, h))
has_room is l (over nil lost e) h = absurd (omega (arith, nil, h))
