-- ===== src/Transfer/Digest.antt =====
-- The loop of TransferSender::start and of TransferReceiver::receiveNextChunk that hashes a file in
-- blocks of MAX_BUFFER_SIZE bytes.
use net_transfer.Base.{
  ℕ, zero, suc, ◌+◌, ◌≤◌, ◌<◌, ◌≡◌, refl, ap, sym, ◌∙◌, arith, true, false, List, [], ◌∷◌, ltb, leb,
  lt→ltb, leb→le, leb_false→lt, if◌then◌else◌, length, take, drop, length-take, length-drop,
  take-append-drop, take_all, Bool-cases, inl, inr,
}
use net_transfer.Transfer.Platform.{Hash}

abbrev pub max_buffer_size : ℕ
max_buffer_size = 32768

module _ (hash : Hash) where
  open hash use {State, start, update, finish, update_append, update_nil}

  -- `if (bytes_read > 0) EVP_DigestUpdate(...)`
  unfoldable pub absorb : State → List ℕ → State
  absorb s block = if ltb 0 (length block) then update s block else s

  -- `while (file)`: the stream fails when a read meets the end of the file, so the loop ends with the
  -- first block that is not full.
  unfoldable pub digest_loop : ℕ → State → List ℕ → State
  digest_loop zero s rest = s
  digest_loop (suc fuel) s rest =
      let block = take max_buffer_size rest in
      elim (leb max_buffer_size (length block)) [
        | true ↦ digest_loop fuel (absorb s block) (drop max_buffer_size rest)
        | false ↦ absorb s block
      ]

  -- One round more than there are bytes is enough.
  unfoldable pub file_digest : List ℕ → List ℕ
  unfolding digest_loop absorb
  file_digest contents = finish (digest_loop (length contents + 1) start contents)

  absorb_lem : (s : State) (block : List ℕ) → absorb s block ≡ update s block
  unfolding absorb
  absorb_lem s [] = sym (update_nil s)
  absorb_lem s (b ∷ bs) = rw (lt→ltb 0 (length (b ∷ bs)) (omega arith)) refl

  digest_loop_lem :
      (fuel : ℕ) (s : State) (rest : List ℕ)
      → length rest < fuel
      → digest_loop fuel s rest ≡ update s rest
  unfolding digest_loop
  digest_loop_lem zero s rest h = absurd (omega arith)
  digest_loop_lem (suc fuel) s rest h =
      let block : List ℕ = take max_buffer_size rest in
      let n : length block ≡ _ = length-take max_buffer_size rest in
      elim (Bool-cases (leb max_buffer_size (length block))) [
        | inl full ↦
            let big : max_buffer_size ≤ length block = leb→le max_buffer_size (length block) full in
            rw (full, absorb_lem s block, digest_loop)
              (digest_loop_lem fuel (update s block) (drop max_buffer_size rest)
                  (omega (arith, length-drop max_buffer_size rest))
                ∙ update_append s block (drop max_buffer_size rest)
                ∙ ap (update s) (take-append-drop max_buffer_size rest))
        | inr last ↦
            let small : length block < max_buffer_size =
              leb_false→lt max_buffer_size (length block) last in
            rw (last, absorb_lem s block, digest_loop)
              (ap (update s) (take_all max_buffer_size rest (omega arith)))
      ]

  -- The loop hashes the whole file, and ends.
  pub file_digest_lem : (contents : List ℕ) → file_digest contents ≡ finish (update start contents)
  unfolding file_digest
  file_digest_lem contents =
      ap finish (digest_loop_lem (length contents + 1) start contents (omega arith))
