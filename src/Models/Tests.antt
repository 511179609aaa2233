-- ===== src/Models/Tests.antt =====
-- Validation at concrete values.
use relay_x.Prelude.{◌≡◌, ◌↔◌, [], ◌∷◌, All}
use relay_x.Text.{str}
use relay_x.Errors.{ok}
use relay_x.Models.{HeaderList, validate_header_list}
use relay_x.Models.Headers.{IsHeader, validate_header_list_iff}

abbrev headers : HeaderList
headers = (str "Host", str "a") ∷ (str "Bad", 13 ∷ 10 ∷ []) ∷ []

validate_header_list_iff_example : (validate_header_list headers ≡ ok tt) ↔ All IsHeader headers
validate_header_list_iff_example = validate_header_list_iff headers
