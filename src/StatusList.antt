-- ===== src/StatusList.antt =====
-- core/status-list/index.ts: bitstring status lists. A buffer is a list of bytes, and an encoded list
-- the code units of its text. Gzip and base64 are those of Node and a parameter, `Codec`.
pub mod Schema
pub mod Url
pub mod Bits
pub mod Laws
pub mod Tests
use helix_core.Prelude.{
  String, ℕ, suc, ◌+◌, ◌-◌, ◌*◌, ◌/◌, ◌%◌, ◌^◌, ◌≡◌, ◌≢◌, List, [], ◌∷◌, map, Option, none, some,
  ◌==◌, if◌then◌else◌, Bool, true, false, bit_and, bit_or, replicate, length, set, get_elem?,
  select, not, All,
}
use helix_core.Errors.{plain}
use helix_core.Result.{Result, ok, throw, ◌>>=◌}

-- `gzipSync`, `gunzipSync` (`none` when it throws) and `Buffer`'s base64. What is relied on: unzipping
-- what was zipped gives it back, the base64 text of a buffer is in the standard alphabet (no `-` or
-- `_`), and a decoder accepts the text without its `=` padding.
pub record Codec : Type 0 where
  pub gzip : List ℕ → List ℕ
  pub gunzip : List ℕ → Option (List ℕ)
  pub to_base64 : List ℕ → List ℕ
  pub from_base64 : List ℕ → List ℕ
  pub gunzip-gzip : (buffer : List ℕ) → gunzip (gzip buffer) ≡ some buffer
  pub standard : (buffer : List ℕ) → All (λ c. (c ≢ b'-') × (c ≢ b'_')) (to_base64 buffer)
  pub unpadded :
      (buffer : List ℕ) → from_base64 (select (λ c. not (c == b'=')) (to_base64 buffer)) ≡ buffer

-- `type Bit = 0 | 1`
pub data Bit : Type 0 where
  bit_0 bit_1 : Bit

-- `.replace(/\+/g, '-').replace(/\//g, '_')`
unfoldable pub to_url : ℕ → ℕ
to_url c = if c == b'+' then b'-' else if c == b'/' then b'_' else c

-- `.replace(/-/g, '+').replace(/_/g, '/')`
unfoldable pub from_url : ℕ → ℕ
from_url c = if c == b'-' then b'+' else if c == b'_' then b'/' else c

-- the bit of an index inside its byte: the highest bit comes first
abbrev pub mask : ℕ → ℕ
mask index = 2 ^ (7 - index % 8)

-- `byte | (1 << (7 - bitIndex))`, or `byte & ~(1 << (7 - bitIndex))` of a byte
abbrev pub write_bit : Bit → ℕ → ℕ → ℕ
write_bit bit_1 byte m = bit_or byte m
write_bit bit_0 byte m = bit_and byte (255 - m)

-- `(byte >> (7 - bitIndex)) & 1`
abbrev pub read_bit : ℕ → ℕ → Bit
read_bit byte m = if bit_and (byte / m) 1 == 1 then bit_1 else bit_0

-- `if (x === undefined) throw new Error(…)`
abbrev pub some_or {ℓ} : {A : Type ℓ} → String → Option A → Result A
some_or text none = throw (plain text)
some_or text (some a) = ok a

module _ (codec : Codec) where
  open codec use {gzip, gunzip, to_base64, from_base64}

  -- `base64urlEncode`
  unfoldable pub base64url_encode : List ℕ → List ℕ
  base64url_encode buffer = select (λ c. not (c == b'=')) (map to_url (to_base64 buffer))

  -- `base64urlDecode`
  unfoldable pub base64url_decode : List ℕ → List ℕ
  base64url_decode text = from_base64 (map from_url text)

  -- the two lines that open `setBit`, `getBit` and `getStatusListLength`
  unfoldable pub read_buffer : List ℕ → Result (List ℕ)
  read_buffer encoded_list = some_or "gunzip failed" (gunzip (base64url_decode encoded_list))

  -- the two lines that close `createStatusList` and `setBit`
  unfoldable pub write_buffer : List ℕ → List ℕ
  write_buffer buffer = base64url_encode (gzip buffer)

  -- `createStatusList`; `Math.ceil(size / 8)` is `(size + 7) / 8`
  unfoldable pub create_status_list : ℕ → List ℕ
  create_status_list size = write_buffer (replicate ((size + 7) / 8) 0)

  -- `setBit`
  unfoldable pub set_bit : List ℕ → ℕ → Bit → Result (List ℕ)
  set_bit encoded_list index value = do
    buffer ← read_buffer encoded_list
    byte ← some_or "Status list index out of bounds" (get_elem? buffer (index / 8))
    ok (write_buffer (set buffer (index / 8) (write_bit value byte (mask index))))

  -- `getBit`
  unfoldable pub get_bit : List ℕ → ℕ → Result Bit
  get_bit encoded_list index = do
    buffer ← read_buffer encoded_list
    byte ← some_or "Status list index out of bounds" (get_elem? buffer (index / 8))
    ok (read_bit byte (mask index))

  -- `getStatusListLength`
  unfoldable pub get_status_list_length : List ℕ → Result ℕ
  get_status_list_length encoded_list = do buffer ← read_buffer encoded_list; ok (length buffer * 8)
