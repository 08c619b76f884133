-- ===== src/Shared/Text.antt =====
-- The string methods that the code calls on identifiers and decimal texts.
use wallet_conversion_engine.Prelude.{
  ◌≡◌, ap, ◌∙◌, refl, Bool, false, ◌&&◌, ◌||◌, not, Char, code, String, str_eq, ◌==◌, leb,
  if◌then◌else◌, Bool-cases, inl, inr,
}

-- ECMAScript WhiteSpace and LineTerminator, which `String.prototype.trim` strips.
pub is_space : Char → Bool
is_space ch =
    let c = code ch in
    (leb 9 c && leb c 13)
    || c == 32
    || c == 160
    || c == 5760
    || (leb 8192 c && leb c 8202)
    || c == 8232
    || c == 8233
    || c == 8239
    || c == 8287
    || c == 12288
    || c == 65279

pub trim_start : String → String
trim_start String.[] = ""
trim_start (String.◌∷◌ c s) = if is_space c then trim_start s else String.◌∷◌ c s

-- A character is dropped if it is a space and all that follows it is dropped.
abbrev cons_trimmed : Char → String → String
cons_trimmed c String.[] = if is_space c then "" else String.◌∷◌ c ""
cons_trimmed c (String.◌∷◌ d s) = String.◌∷◌ c (String.◌∷◌ d s)

pub trim_end : String → String
trim_end String.[] = ""
trim_end (String.◌∷◌ c s) = cons_trimmed c (trim_end s)

unfoldable pub trim : String → String
unfolding trim_start trim_end is_space
trim s = trim_end (trim_start s)

trim_end-cons_trimmed :
    (c : Char) (t : String) → trim_end t ≡ t → trim_end (cons_trimmed c t) ≡ cons_trimmed c t
unfolding trim_end
trim_end-cons_trimmed c String.[] h = elim (Bool-cases (is_space c)) [
  | inl space ↦ rw (space, if◌then◌else◌) refl
  | inr solid ↦ rw (solid, if◌then◌else◌) (rw (solid, if◌then◌else◌) refl)
]
trim_end-cons_trimmed c (String.◌∷◌ d s) h = ap (cons_trimmed c) h

trim_end-trim_end : (s : String) → trim_end (trim_end s) ≡ trim_end s
unfolding trim_end
trim_end-trim_end String.[] = refl
trim_end-trim_end (String.◌∷◌ c s) = trim_end-cons_trimmed c (trim_end s) (trim_end-trim_end s)

trim_start-cons_trimmed :
    (c : Char) (t : String) → is_space c ≡ false → trim_start (cons_trimmed c t) ≡ cons_trimmed c t
unfolding trim_start
trim_start-cons_trimmed c String.[] h = rw (h, if◌then◌else◌) (rw (h, if◌then◌else◌) refl)
trim_start-cons_trimmed c (String.◌∷◌ d s) h = rw (h, if◌then◌else◌) refl

trim_start-trim : (s : String) → trim_start (trim_end (trim_start s)) ≡ trim_end (trim_start s)
unfolding trim_start trim_end
trim_start-trim String.[] = refl
trim_start-trim (String.◌∷◌ c s) = elim (Bool-cases (is_space c)) [
  | inl space ↦ rw (space, if◌then◌else◌) (trim_start-trim s)
  | inr solid ↦ rw (solid, if◌then◌else◌) (trim_start-cons_trimmed c (trim_end s) solid)
]

-- Trimming a text that has been trimmed changes nothing.
pub trim-trim : (s : String) → trim (trim s) ≡ trim s
unfolding trim
trim-trim s = ap trim_end (trim_start-trim s) ∙ trim_end-trim_end (trim_start s)

-- `length(btrim(text)) > 0` of the CHECK constraints: PostgreSQL's `btrim` strips spaces only.
abbrev pub is_nonempty : String → Bool
is_nonempty String.[] = false
is_nonempty (String.◌∷◌ c s) = not (code c == 32) || is_nonempty s

-- `decimal.includes('.')`
abbrev pub has_dot : String → Bool
has_dot String.[] = false
has_dot (String.◌∷◌ c s) = code c == b'.' || has_dot s

abbrev cons_zero : Char → String → String
cons_zero c String.[] = if code c == b'0' then "" else String.◌∷◌ c ""
cons_zero c (String.◌∷◌ d s) = String.◌∷◌ c (String.◌∷◌ d s)

-- `replace(/0+$/, '')`
pub drop_zeros : String → String
drop_zeros String.[] = ""
drop_zeros (String.◌∷◌ c s) = cons_zero c (drop_zeros s)

abbrev cons_dot : Char → String → String
cons_dot c String.[] = if code c == b'.' then "" else String.◌∷◌ c ""
cons_dot c (String.◌∷◌ d s) = String.◌∷◌ c (String.◌∷◌ d s)

-- A dot is dropped where it is the last character.
pub drop_dot : String → String
drop_dot String.[] = ""
drop_dot (String.◌∷◌ c String.[]) = if code c == b'.' then "" else String.◌∷◌ c ""
drop_dot (String.◌∷◌ c (String.◌∷◌ d s)) = String.◌∷◌ c (drop_dot (String.◌∷◌ d s))

-- `replace(/\.?0+$/, '')`: one zero at least, and the dot before the zeros if there is one.
pub replace_zeros : String → String
unfolding drop_zeros drop_dot
replace_zeros s = let stripped = drop_zeros s in if str_eq stripped s then s else drop_dot stripped

-- The same function stands in accept-quote.use-case.ts, get-conversion.use-case.ts and
-- quotes.controller.ts.
unfoldable pub trim_trailing_zeros : String → String
unfolding replace_zeros
trim_trailing_zeros decimal = if not (has_dot decimal) then decimal else replace_zeros decimal

trims : trim_trailing_zeros "100.500" ≡ "100.5"
unfolding trim_trailing_zeros
trims = refl

trims_dot : trim_trailing_zeros "100.000" ≡ "100"
unfolding trim_trailing_zeros
trims_dot = refl

keeps_integer : trim_trailing_zeros "100" ≡ "100"
unfolding trim_trailing_zeros
keeps_integer = refl

trims_spaces : trim "  user-123 " ≡ "user-123"
unfolding trim
trims_spaces = refl
