-- ===== src/Shared/Identifiers.antt =====
-- shared/domain/user-id.ts, pricing/domain/quote-id.ts and conversion/domain/conversion-id.ts: an
-- identifier is a trimmed text that is not empty.
use wallet_conversion_engine.Prelude.{
  ◌≡◌, String, str_eq, arith, if◌then◌else◌, Bool-cases, inl, inr,
}
use wallet_conversion_engine.Shared.Result.{
  Error, Result, ok, err, empty_user_id, empty_quote_id, empty_conversion_id,
}
use wallet_conversion_engine.Shared.Text.{trim, trim-trim}

unfoldable pub identifier_of : Error → String → Result String
identifier_of empty value =
    let trimmed = trim value in if str_eq trimmed "" then err empty else ok trimmed

-- `UserId.of`, `QuoteId.of`, `ConversionId.of`
abbrev pub user_id_of : String → Result String
user_id_of value = identifier_of empty_user_id value

abbrev pub quote_id_of : String → Result String
quote_id_of value = identifier_of empty_quote_id value

abbrev pub conversion_id_of : String → Result String
conversion_id_of value = identifier_of empty_conversion_id value

-- An identifier that was made is made again from its own text, by each of the three classes.
pub identifier_of_idem :
    (empty other : Error) (value : String) {id : String}
    → identifier_of empty value ≡ ok id
    → identifier_of other id ≡ ok id
unfolding identifier_of
identifier_of_idem empty other value {id} h = elim (Bool-cases (str_eq (trim value) "")) [
  | inl blank ↦ ground (arith, blank)
  | inr solid ↦ ground (arith, solid, trim-trim value)
]
