-- ===== src/StatusList/Laws.antt =====
-- What core/status-list/index.ts guarantees of an encoded status list, whatever codec writes it.
use helix_core.Prelude.{
  ℕ, zero, suc, ==→eq, ◌+◌, ◌*◌, ◌/◌, ◌<◌, ◌≤◌, ◌≡◌, ◌≢◌, refl, sym, ◌∙◌, ap, subst, List, [], ◌∷◌,
  none, some, false, ◌==◌, All, All-get_elem?, length, get_elem?, set, replicate, length-set,
  length-replicate, get_elem?-set_self, get_elem?-set_ne, get_elem?-replicate, arith, ◌⊎◌, inl, inr,
  Bool-cases,
}
use helix_core.Errors.{plain}
use helix_core.Result.{Result, ok, throw, ◌>>=◌}
use helix_core.StatusList.{
  Codec, Bit, bit_0, mask, write_bit, read_bit, base64url_encode, base64url_decode, some_or,
  read_buffer, write_buffer, create_status_list, set_bit, get_bit, get_status_list_length,
}
use helix_core.StatusList.Url.{map_url}
use helix_core.StatusList.Bits.{
  read_bit-write_bit, write_bit_byte, read_bit_zero, read_bit-write_bit_other,
}

module _ (codec : Codec) where
  -- Whatever buffer is encoded in base64url decodes to itself.
  pub base64url_decode-encode :
      (buffer : List ℕ) → base64url_decode codec (base64url_encode codec buffer) ≡ buffer
  unfolding base64url_encode base64url_decode
  base64url_decode-encode buffer =
      ap codec.from_base64 (map_url (codec.to_base64 buffer) (codec.standard buffer))
      ∙ codec.unpadded buffer

  read_buffer-write_buffer :
      (buffer : List ℕ) → read_buffer codec (write_buffer codec buffer) ≡ ok buffer
  unfolding read_buffer write_buffer
  read_buffer-write_buffer buffer =
      ap (λ x. some_or "gunzip failed" (codec.gunzip x))
        (base64url_decode-encode (codec.gzip buffer))
      ∙ ap (some_or "gunzip failed") (codec.gunzip-gzip buffer)

  -- A text that encodes a buffer of bytes.
  pub record IsList (text buffer : List ℕ) : Type 0 where
    pub reads : read_buffer codec text ≡ ok buffer
    pub bytes : All (λ byte. byte < 256) buffer

  -- the bit of an index in a buffer, and the rest of `getBit`
  abbrev bit_at : List ℕ → ℕ → Result Bit
  bit_at buffer index = do
    byte ← some_or "Status list index out of bounds" (get_elem? buffer (index / 8))
    ok (read_bit byte (mask index))

  get_bit-bit_at :
      (text buffer : List ℕ) (index : ℕ)
      → read_buffer codec text ≡ ok buffer
      → get_bit codec text index ≡ bit_at buffer index
  unfolding get_bit
  get_bit-bit_at text buffer index h = ap (λ r. r >>= λ b. bit_at b index) h

  get_status_list_length_lem :
      (text buffer : List ℕ)
      → read_buffer codec text ≡ ok buffer
      → get_status_list_length codec text ≡ ok (length buffer * 8)
  unfolding get_status_list_length
  get_status_list_length_lem text buffer h = ap (λ r. r >>= λ b. ok (length b * 8)) h

  set_bit_lem :
      (text buffer : List ℕ) (index byte : ℕ) (value : Bit)
      → read_buffer codec text ≡ ok buffer
      → get_elem? buffer (index / 8) ≡ some byte
      → set_bit codec text index value
        ≡ ok (write_buffer codec (set buffer (index / 8) (write_bit value byte (mask index))))
  unfolding set_bit
  set_bit_lem text buffer index byte value h e =
      ap
        (λ r. r >>= λ b.
          some_or "Status list index out of bounds" (get_elem? b (index / 8)) >>= λ x.
          ok (write_buffer codec (set b (index / 8) (write_bit value x (mask index)))))
        h
      ∙ ap
          (λ o. some_or "Status list index out of bounds" o >>= λ x.
            ok (write_buffer codec (set buffer (index / 8) (write_bit value x (mask index)))))
          e

  -- the buffer that a write leaves, and its bits
  abbrev written : List ℕ → ℕ → Bit → ℕ → List ℕ
  written buffer index value byte = set buffer (index / 8) (write_bit value byte (mask index))

  bit_at-some :
      (buffer : List ℕ) (index byte : ℕ)
      → get_elem? buffer (index / 8) ≡ some byte
      → bit_at buffer index ≡ ok (read_bit byte (mask index))
  bit_at-some buffer index byte e =
      ap (λ o. some_or "Status list index out of bounds" o >>= λ x. ok (read_bit x (mask index))) e

  bit_at_self :
      (buffer : List ℕ) (index byte : ℕ) (value : Bit)
      → byte < 256
      → get_elem? buffer (index / 8) ≡ some byte
      → bit_at (written buffer index value byte) index ≡ ok value
  bit_at_self buffer index byte value small e =
      bit_at-some (set buffer (index / 8) (write_bit value byte (mask index))) index _
        (get_elem?-set_self buffer (index / 8) (write_bit value byte (mask index)) byte e)
      ∙ ap ok (read_bit-write_bit value index byte small)

  bit_at_other :
      (buffer : List ℕ) (index other byte : ℕ) (value : Bit)
      → byte < 256
      → get_elem? buffer (index / 8) ≡ some byte
      → index ≢ other
      → bit_at (written buffer index value byte) other ≡ bit_at buffer other
  bit_at_other buffer index other byte value small e apart = elim (cases (index / 8) (other / 8)) [
    | inr far ↦
        ap (λ o. some_or "Status list index out of bounds" o >>= λ x. ok (read_bit x (mask other)))
          (get_elem?-set_ne buffer (index / 8) (other / 8) (write_bit value byte (mask index)) far)
    | inl near ↦
        bit_at-some (set buffer (index / 8) (write_bit value byte (mask index))) other _ (
          subst
            (λ k.
              get_elem? (set buffer (index / 8) (write_bit value byte (mask index))) k
              ≡ some (write_bit value byte (mask index)))
            near (get_elem?-set_self buffer (index / 8) (write_bit value byte (mask index)) byte e))
        ∙ ap ok
            (read_bit-write_bit_other value index other byte small (λ same. apart (omega arith)))
        ∙ sym (bit_at-some buffer other byte (subst (λ k. get_elem? buffer k ≡ some byte) near e))
  ]
    where
      cases : (a b : ℕ) → (a ≡ b) ⊎ (a ≢ b)
      cases a b = elim (Bool-cases (a == b)) [
        | inl e ↦ inl (==→eq a b e)
        | inr e ↦ inr (λ h. differ a b h e)
      ]
        where
          differ : (a b : ℕ) → a ≡ b → (a == b) ≡ false → ⊥
          differ a b h e = ground arith

  set_bytes :
      (buffer : List ℕ) (i byte : ℕ)
      → All (λ byte. byte < 256) buffer
      → byte < 256
      → All (λ byte. byte < 256) (set buffer i byte)
  set_bytes [] i byte h small = tt
  set_bytes (x ∷ xs) zero byte h small = (small, h.1)
  set_bytes (x ∷ xs) (suc i) byte h small = (h.0, set_bytes xs i byte h.1 small)

  lookup_in :
      (buffer : List ℕ) (i : ℕ) → i < length buffer → (byte : ℕ) × (get_elem? buffer i ≡ some byte)
  lookup_in [] i h = absurd (omega arith)
  lookup_in (x ∷ xs) zero h = (x, refl)
  lookup_in (x ∷ xs) (suc i) h = lookup_in xs i (omega arith)

  lookup_out : (buffer : List ℕ) (i : ℕ) → length buffer ≤ i → get_elem? buffer i ≡ none
  lookup_out [] i h = refl
  lookup_out (x ∷ xs) zero h = absurd (omega arith)
  lookup_out (x ∷ xs) (suc i) h = lookup_out xs i (omega arith)

  -- What a write does: the bit reads as it was written, every other bit and the capacity stay, and the
  -- text is a list again.
  pub record IsWritten (text : List ℕ) (index : ℕ) (value : Bit) (result : List ℕ) : Type 0 where
    pub buffer : List ℕ
    pub again : IsList result buffer
    pub reads : get_bit codec result index ≡ ok value
    pub others : (other : ℕ) → index ≢ other → get_bit codec result other ≡ get_bit codec text other
    pub capacity : get_status_list_length codec result ≡ get_status_list_length codec text

  -- Within the capacity of a list of bytes, a bit can be set: the call returns a list in which the bit
  -- reads as it was written and nothing else has changed.
  pub set_bit-IsWritten :
      (text buffer : List ℕ) (index : ℕ) (value : Bit)
      → IsList text buffer
      → index < length buffer * 8
      → (result : List ℕ) × (set_bit codec text index value ≡ ok result)
        × IsWritten text index value result
  set_bit-IsWritten text buffer index value l within =
      let (byte, e) = lookup_in buffer (index / 8) (omega arith) in
      let small = All-get_elem? (λ byte. byte < 256) buffer (index / 8) l.bytes e in
      let after = set buffer (index / 8) (write_bit value byte (mask index)) in
      let reread = read_buffer-write_buffer after in
      (
        write_buffer codec after,
        set_bit_lem text buffer index byte value l.reads e,
        record {
          buffer = after;
          again = record {
            reads = reread;
            bytes =
                set_bytes buffer (index / 8) (write_bit value byte (mask index)) l.bytes
                  (write_bit_byte value index byte small);
          };
          reads =
              get_bit-bit_at (write_buffer codec after) after index reread
              ∙ bit_at_self buffer index byte value small e;
          others = λ other apart.
              get_bit-bit_at (write_buffer codec after) after other reread
              ∙ bit_at_other buffer index other byte value small e apart
              ∙ sym (get_bit-bit_at text buffer other l.reads);
          capacity =
              get_status_list_length_lem (write_buffer codec after) after reread
              ∙ ap (λ n. ok (n * 8))
                  (length-set buffer (index / 8) (write_bit value byte (mask index)))
              ∙ sym (get_status_list_length_lem text buffer l.reads);
        },
      )

  -- Beyond the capacity both a write and a read throw.
  pub bit_out_of_bounds :
      (text buffer : List ℕ) (index : ℕ) (value : Bit)
      → IsList text buffer
      → length buffer * 8 ≤ index
      → (set_bit codec text index value ≡ throw (plain "Status list index out of bounds"))
        × (get_bit codec text index ≡ throw (plain "Status list index out of bounds"))
  unfolding set_bit get_bit
  bit_out_of_bounds text buffer index value l beyond =
      let e = lookup_out buffer (index / 8) (omega arith) in
      (
        ap
              (λ r. r >>= λ b.
                some_or "Status list index out of bounds" (get_elem? b (index / 8)) >>= λ x.
                ok (write_buffer codec (set b (index / 8) (write_bit value x (mask index)))))
              l.reads
            ∙ ap
                (λ o. some_or "Status list index out of bounds" o >>= λ x.
                  ok (write_buffer codec (set buffer (index / 8) (write_bit value x (mask index)))))
                e,
        ap (λ r. r >>= λ b. bit_at b index) l.reads
            ∙ ap
                (λ o.
                  some_or "Status list index out of bounds" o >>= λ x. ok (read_bit x (mask index)))
                e,
      )

  zero_bytes : (n : ℕ) → All (λ byte. byte < 256) (replicate n 0)
  zero_bytes zero = tt
  zero_bytes (suc n) = (omega arith, zero_bytes n)

  -- A new list reads as a buffer of bytes, with room for the bits asked for, rounded up to whole bytes,
  -- and each of them is 0.
  pub create_status_list_clear :
      (size : ℕ)
      → (buffer : List ℕ) × IsList (create_status_list codec size) buffer
        × (size ≤ length buffer * 8)
        × (length buffer * 8 < size + 8)
        × (get_status_list_length codec (create_status_list codec size) ≡ ok (length buffer * 8))
        × ((index : ℕ)
            → index < length buffer * 8
            → get_bit codec (create_status_list codec size) index ≡ ok bit_0)
  unfolding create_status_list
  create_status_list_clear size =
      let bytes : ℕ = (size + 7) / 8 in
      let buffer : List ℕ = replicate bytes 0 in
      let reads = read_buffer-write_buffer buffer in
      let count : length buffer ≡ bytes = length-replicate bytes 0 in
      (
        buffer,
        record { reads = reads; bytes = zero_bytes bytes },
        omega arith,
        omega arith,
        get_status_list_length_lem (write_buffer codec buffer) buffer reads,
        λ index within.
            get_bit-bit_at (write_buffer codec buffer) buffer index reads
            ∙ bit_at-some buffer index 0 (get_elem?-replicate bytes (index / 8) 0 (omega arith))
            ∙ ap ok (read_bit_zero index),
      )
