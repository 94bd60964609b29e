-- ===== src/History/Cursor.antt =====
-- A cursor that is written and read.
use Prim.Native.Char.{Char, code}
use Prim.Native.String.{◌++◌ as append}
use Prim.Native.String.append as Append
use cubesync.Prelude.{
  ℕ, ◌≡◌, refl, sym, ap, ◌∙◌, String, Bool, true, false, some, ◌==◌, if◌then◌else◌, str_eq, eq_iff,
  Bool-cases, inl, inr,
}
use cubesync.History.{Key, Formats, split_comma, parse_cursor, encode_cursor}

abbrev no_comma : String → Bool
no_comma String.[] = true
no_comma (String.◌∷◌ c s) = if code c == 44 then false else no_comma s

abbrev pub NoComma : String → Type 0
NoComma s = no_comma s ≡ true

-- What is documented of the text of a time and of a uuid.
pub record IsFormat (formats : Formats) : Type 0 where
  pub no_comma : (ts : ℕ) → NoComma (formats.format_time ts)
  pub parses_time : (ts : ℕ) → formats.parse_time (formats.format_time ts) ≡ some ts
  pub parses_uuid : (id : ℕ) → formats.parse_uuid (formats.uuid_text id) ≡ some id

abbrev comma : Char
comma = ","

no_comma-cons :
    (c : Char) (s : String) → NoComma (String.◌∷◌ c s) → ((code c == 44) ≡ false) × NoComma s
no_comma-cons c s h = split (code c == 44) h
  where
    split :
        (b : Bool) → (if b then false else no_comma s) ≡ true → (b ≡ false) × (no_comma s ≡ true)
    split true e = absurd (cc e)
    split false e = (refl, e)

append-comma : (t : String) → append "," t ≡ String.◌∷◌ comma t
append-comma t = simp (Append.cons comma "" t, Append.nil t)

split_comma-append :
    (s t : String) → NoComma s → split_comma (append s (append "," t)) ≡ some (s, t)
split_comma-append String.[] t h = simp (append-comma t, Append.nil (String.◌∷◌ comma t))
split_comma-append (String.◌∷◌ c s) t h =
    let (here, rest) = no_comma-cons c s h in
    simp (
      Append.cons c s (append "," t),
      here,
      split_comma-append s t rest,
      Append.cons c "" s,
      Append.nil s,
    )

-- A text with a comma in it is not empty.
not_empty : (s t : String) → NoComma s → str_eq (append s (append "," t)) "" ≡ false
not_empty s t h = elim (Bool-cases (str_eq (append s (append "," t)) "")) [
  | inl e ↦ absurd (
      cc (
        sym (split_comma-append s t h)
        ∙ ap split_comma ((eq_iff (append s (append "," t)) "").0 e)))
  | inr e ↦ e
]

module _ (formats : Formats) (good : IsFormat formats) where
  -- A cursor that encodeCursor writes is read by parseCursor as the same time and id.
  pub parse_cursor-encode_cursor :
      (key : Key) → parse_cursor formats (encode_cursor formats key) ≡ some key
  unfolding parse_cursor encode_cursor
  parse_cursor-encode_cursor key = simp (
    not_empty (formats.format_time key.ts) (formats.uuid_text key.id) (good.no_comma key.ts),
    split_comma-append (formats.format_time key.ts) (formats.uuid_text key.id)
        (good.no_comma key.ts),
    good.parses_time key.ts,
    good.parses_uuid key.id,
  )
