-- ===== src/SecretServer/Blocks.antt =====
-- Decrypting block by block (ociclient/credentials/secretserver/secret_server.go, ECBDecrypt).
use native.Mathlib.Nat.{zero-mod, add-mod_left}
use component_cli.Prelude.{
  ℕ, zero, suc, ◌-◌, ◌%◌, ◌<◌, ◌≤◌, ◌≡◌, refl, sym, ◌∙◌, ap, true, false, List, [], ◌∷◌, ◌++◌, All,
  map, length, length-append, take, drop, take-append, drop-append, nat_eq, nat_eq_iff, ltb, arith,
}
use component_cli.Prelude.Result.{ok}
use component_cli.SecretServer.{Block, decrypt_blocks, ecb_decrypt, zeros}

abbrev pub concat : List (List ℕ) → List ℕ
concat [] = []
concat (b ∷ bs) = b ++ concat bs

-- Blocks of one size.
abbrev pub AreSized : ℕ → List (List ℕ) → Type 0
AreSized size blocks = All (λ b. length b ≡ size) blocks

length-zeros : (n : ℕ) → length (zeros n) ≡ n
length-zeros zero = refl
length-zeros (suc n) = omega (arith, length-zeros n)

concat-mod :
    (size : ℕ) (blocks : List (List ℕ)) → AreSized size blocks → length (concat blocks) % size ≡ 0
concat-mod size [] h = zero-mod size
concat-mod size (b ∷ blocks) h =
    rw (length-append, h.0, add-mod_left size (length (concat blocks))) (concat-mod size blocks h.1)

blocks-le-concat :
    (size : ℕ)
    → 0 < size
    → (blocks : List (List ℕ)) → AreSized size blocks
    → length blocks ≤ length (concat blocks)
blocks-le-concat size positive [] h = omega arith
blocks-le-concat size positive (b ∷ blocks) h = omega (
  arith,
  blocks-le-concat size positive blocks h.1,
  length-append b (concat blocks),
  h.0,
  positive,
)

empty_of_length : (l : List ℕ) → length l ≡ 0 → l ≡ []
empty_of_length [] h = refl
empty_of_length (x ∷ l) h = absurd (omega (arith, h))

length-drop : (n : ℕ) (l : List ℕ) → length (drop n l) ≡ length l - n
length-drop zero l = omega arith
length-drop (suc n) [] = omega arith
length-drop (suc n) (x ∷ l) = omega (arith, length-drop n l)

module _ (block : Block) (positive : 0 < block.block_size) where
  decrypt_blocks-map :
      (n : ℕ) (dst : List ℕ) (blocks : List (List ℕ))
      → length blocks ≤ n
      → AreSized block.block_size blocks
      → length dst ≡ length (concat blocks)
      → decrypt_blocks n block dst (concat blocks) ≡ concat (map block.decrypt blocks)
  unfolding decrypt_blocks
  decrypt_blocks-map zero dst [] enough h room = empty_of_length dst room
  decrypt_blocks-map (suc n) dst [] enough h room = empty_of_length dst room
  decrypt_blocks-map zero dst (b ∷ blocks) enough h room = absurd (omega (arith, enough))
  decrypt_blocks-map (suc n) dst ([] ∷ blocks) enough h room = absurd (omega (arith, h.0, positive))
  decrypt_blocks-map (suc n) dst ((x ∷ b) ∷ blocks) enough h room =
      let whole = x ∷ b in
      let front : take block.block_size (whole ++ concat blocks) ≡ whole =
        rw (sym h.0) (take-append whole (concat blocks)) in
      let back : drop block.block_size (whole ++ concat blocks) ≡ concat blocks =
        rw (sym h.0) (drop-append whole (concat blocks)) in
      let left : length (drop block.block_size dst) ≡ length (concat blocks) =
        omega (
          arith,
          length-drop block.block_size dst,
          room,
          length-append whole (concat blocks),
          h.0,
        ) in
      rw (decrypt_blocks, front, back)
        (ap (λ l. block.decrypt whole ++ l)
          (decrypt_blocks-map n (drop block.block_size dst) blocks (omega (arith, enough)) h.1
            left))

  -- ECBDecrypt of whole blocks, into a destination of the source's length, answers with the decrypted
  -- blocks, in order.
  ecb_decrypt-map :
      (blocks : List (List ℕ))
      → AreSized block.block_size blocks
      → ecb_decrypt block (zeros (length (concat blocks))) (concat blocks)
        ≡ ok (concat (map block.decrypt blocks))
  unfolding ecb_decrypt
  ecb_decrypt-map blocks h =
      let src = concat blocks in
      let whole : nat_eq (length src % block.block_size) 0 ≡ true =
        (nat_eq_iff (length src % block.block_size) 0).1 (concat-mod block.block_size blocks h) in
      let room : ltb (length (zeros (length src))) (length src) ≡ false =
        rw (length-zeros (length src)) (ground arith) in
      rw (ecb_decrypt, whole, room)
        (ap ok (
          decrypt_blocks-map (length src) (zeros (length src)) blocks
            (blocks-le-concat block.block_size positive blocks h) h (length-zeros (length src))))

module _ (block : Block) (encrypt : List ℕ → List ℕ) where
  encrypted-AreSized :
      (blocks : List (List ℕ))
      → AreSized block.block_size blocks
      → ((b : List ℕ) → length b ≡ block.block_size → length (encrypt b) ≡ block.block_size)
      → AreSized block.block_size (map encrypt blocks)
  encrypted-AreSized [] h keeps = tt
  encrypted-AreSized (b ∷ blocks) h keeps = (keeps b h.0, encrypted-AreSized blocks h.1 keeps)

  decrypted :
      (blocks : List (List ℕ))
      → AreSized block.block_size blocks
      → ((b : List ℕ) → length b ≡ block.block_size → block.decrypt (encrypt b) ≡ b)
      → map block.decrypt (map encrypt blocks) ≡ blocks
  decrypted [] h back = refl
  decrypted (b ∷ blocks) h back = rw (back b h.0, decrypted blocks h.1 back) refl

  -- What was encrypted block by block with the inverse of the cipher, which keeps the size of a block,
  -- ECBDecrypt decrypts to what it was, for every number of blocks of at least one byte.
  pub ecb_decrypt-encrypted :
      (blocks : List (List ℕ))
      → 0 < block.block_size
      → AreSized block.block_size blocks
      → ((b : List ℕ) → length b ≡ block.block_size → length (encrypt b) ≡ block.block_size)
      → ((b : List ℕ) → length b ≡ block.block_size → block.decrypt (encrypt b) ≡ b)
      → ecb_decrypt block
          (zeros (length (concat (map encrypt blocks))))
          (concat (map encrypt blocks))
        ≡ ok (concat blocks)
  ecb_decrypt-encrypted blocks positive sized keeps back =
      ecb_decrypt-map block positive (map encrypt blocks) (encrypted-AreSized blocks sized keeps)
      ∙ ap (λ l. ok (concat l)) (decrypted blocks sized back)
