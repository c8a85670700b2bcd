-- ===== src/Api/Pages/Cursors.antt =====
-- `encode_cursor` and `decode_cursor` of backend/app/api/pagination.py. Parameters are JSON and base64. A
-- text is the list of its code points.
use know_gate.Prelude.{
  ℕ, zero, suc, ◌+◌, ◌-◌, ◌<◌, ◌≡◌, refl, sym, ap, ◌∙◌, Bool, true, false, ◌&&◌, Option, none, some,
  List, [], ◌∷◌, ◌++◌, ◌==◌, length, arith, All, if◌then◌else◌,
}
use Prim.Native.Nat.{◌%◌}

abbrev pub Cursor : Type 0
Cursor = List ℕ

-- The time and the id that a cursor carries.
abbrev pub Position : Type 0 → Type 0
Position K = ℕ × K

-- What `json` and `base64` do: `dumps` gives the bytes of a pair, `urlsafe_b64encode` their padded text.
pub record Codec (K : Type 0) : Type 1 where
  pub Bytes : Type 0
  pub dumps : Position K → Bytes
  pub loads : Bytes → Option (Position K)
  pub urlsafe_b64encode : Bytes → List ℕ
  pub urlsafe_b64decode : List ℕ → Option Bytes

-- The sign "="
abbrev pub equals_sign : ℕ
equals_sign = 61

abbrev pub signs : ℕ → List ℕ
signs zero = []
signs (suc n) = equals_sign ∷ signs n

abbrev pub is_blank : List ℕ → Bool
is_blank [] = true
is_blank (c ∷ cs) = false

-- `rstrip("=")`
unfoldable pub rstrip_signs : List ℕ → List ℕ
rstrip_signs [] = []
rstrip_signs (c ∷ cs) =
    let rest = rstrip_signs cs in if is_blank rest && c == equals_sign then [] else c ∷ rest

-- `cursor + "=" * (-len(cursor) % 4)`
abbrev pub padded : Cursor → List ℕ
padded cursor = cursor ++ signs ((4 - length cursor % 4) % 4)

module _ {K : Type 0} (codec : Codec K) where
  unfoldable pub encode_cursor : Position K → Cursor
  unfolding rstrip_signs
  encode_cursor position = rstrip_signs (codec.urlsafe_b64encode (codec.dumps position))

  unfoldable pub loads_of : Option codec.Bytes → Option (Position K)
  loads_of none = none
  loads_of (some raw) = codec.loads raw

  unfoldable pub decode_cursor : Cursor → Option (Position K)
  unfolding loads_of
  decode_cursor cursor = loads_of (codec.urlsafe_b64decode (padded cursor))

  -- What base64 and JSON promise: what is encoded is decoded, a text has a length that is divisible by 4
  -- and at most two signs, all at its end, and the one of a pair has something before them.
  pub record IsCodec : Type 0 where
    pub loads_dumps : (p : Position K) → codec.loads (codec.dumps p) ≡ some p
    pub b64decode-b64encode :
        (raw : codec.Bytes) → codec.urlsafe_b64decode (codec.urlsafe_b64encode raw) ≡ some raw
    pub body : codec.Bytes → List ℕ
    pub padding : codec.Bytes → ℕ
    pub b64encode_parts :
        (raw : codec.Bytes) → codec.urlsafe_b64encode raw ≡ body raw ++ signs (padding raw)
    pub no_sign : (raw : codec.Bytes) → All (λ c. (c == equals_sign) ≡ false) (body raw)
    pub quads : (raw : codec.Bytes) → (length (body raw) + padding raw) % 4 ≡ 0
    pub few : (raw : codec.Bytes) → padding raw < 3
    pub not_empty : (p : Position K) → is_blank (body (codec.dumps p)) ≡ false

rstrip_signs-signs : (n : ℕ) → rstrip_signs (signs n) ≡ []
unfolding rstrip_signs
rstrip_signs-signs zero = refl
rstrip_signs-signs (suc n) = rw (rstrip_signs-signs n) refl

rstrip_signs-append :
    (body : List ℕ) (n : ℕ)
    → All (λ c. (c == equals_sign) ≡ false) body
    → rstrip_signs (body ++ signs n) ≡ body
unfolding rstrip_signs
rstrip_signs-append [] n h = rstrip_signs-signs n
rstrip_signs-append (c ∷ cs) n h = ground (arith, h.0, rstrip_signs-append cs n h.1)

missing_signs : (len n : ℕ) → (len + n) % 4 ≡ 0 → n < 3 → (4 - len % 4) % 4 ≡ n
missing_signs len n quads few = omega (arith, quads, few)

module _ {K : Type 0} (codec : Codec K) (is_codec : IsCodec codec) where
  encode_cursor-body : (p : Position K) → encode_cursor codec p ≡ is_codec.body (codec.dumps p)
  unfolding encode_cursor
  encode_cursor-body p =
      let raw = codec.dumps p in
      ap rstrip_signs (is_codec.b64encode_parts raw)
      ∙ rstrip_signs-append (is_codec.body raw) (is_codec.padding raw) (is_codec.no_sign raw)

  pub encode_cursor_not_empty : (p : Position K) → is_blank (encode_cursor codec p) ≡ false
  encode_cursor_not_empty p = ap is_blank (encode_cursor-body p) ∙ is_codec.not_empty p

  -- The signs that are missing are those that were stripped.
  padded-encode_cursor :
      (p : Position K) → padded (encode_cursor codec p) ≡ codec.urlsafe_b64encode (codec.dumps p)
  padded-encode_cursor p =
      let raw = codec.dumps p in
      let n =
        missing_signs (length (is_codec.body raw)) (is_codec.padding raw) (is_codec.quads raw)
          (is_codec.few raw) in
      ap padded (encode_cursor-body p)
      ∙ (ap (λ k. is_codec.body raw ++ signs k) n ∙ sym (is_codec.b64encode_parts raw))

  -- What a cursor encodes is read back.
  pub decode_cursor-encode_cursor :
      (p : Position K) → decode_cursor codec (encode_cursor codec p) ≡ some p
  unfolding decode_cursor loads_of
  decode_cursor-encode_cursor p =
      ap (λ text. loads_of codec (codec.urlsafe_b64decode text)) (padded-encode_cursor p)
      ∙ (ap (λ raw. loads_of codec raw) (is_codec.b64decode-b64encode (codec.dumps p))
          ∙ is_codec.loads_dumps p)
