-- ===== src/Writer.antt =====
-- relayx/http/writer.py: the response that the local proxy writes.
-- Writing is the list of the bytes written so far, with what is raised on the way.
use relay_x.Prelude.{
  ℕ, ◌+◌, ◌/◌, ◌%◌, [], ◌∷◌, ◌++◌, ltb, leb, ◌&&◌, all, length, Option, some, none, if◌then◌else◌,
}
use relay_x.Prelude.Int.{ℤ, pos}
use relay_x.Text.{Text, Bytes, str}
use relay_x.Text.Decimal.{show_int, show_nat}
use relay_x.Text.Unicode.{Unicode}
use relay_x.Errors.{Result, ok, err, ◌>>=◌, unicode_error, foreign}
use relay_x.Models.{HeaderList, Message, request, response, error}
use relay_x.Headers.{filter_forward_headers}

-- text.encode("ascii") and text.encode("iso-8859-1"): every code point is below the bound.
unfoldable pub encode_below : ℕ → Text → Result Bytes
encode_below bound text = if all (λ c. ltb c bound) text then ok text else err unicode_error

-- The UTF-8 bytes of a code point; a surrogate has none.
abbrev pub utf8_char : ℕ → Result Bytes
utf8_char c =
    if ltb c 0x80
    then ok (c ∷ [])
    else if ltb c 0x800
    then ok ((0xc0 + c / 64) ∷ (0x80 + c % 64) ∷ [])
    else if leb 0xd800 c && leb c 0xdfff
    then err unicode_error
    else if ltb c 0x1_0000
    then ok ((0xe0 + c / 4096) ∷ (0x80 + c / 64 % 64) ∷ (0x80 + c % 64) ∷ [])
    else ok
        ((0xf0 + c / 262144) ∷ (0x80 + c / 4096 % 64) ∷ (0x80 + c / 64 % 64) ∷ (0x80 + c % 64) ∷ [])

-- text.encode("utf-8")
unfoldable pub encode_utf8 : Text → Result Bytes
encode_utf8 [] = ok []
encode_utf8 (c ∷ s) = do b ← utf8_char c; more ← encode_utf8 s; ok (b ++ more)

pub record Written : Type 0 where
  pub output : Bytes
  pub outcome : Result (Unit {0})

abbrev pub line_end : Text
line_end = 13 ∷ 10 ∷ []

-- writer.write(...) of encoded text, and then the rest
abbrev pub write : Bytes → Result Bytes → (Bytes → Written) → Written
write output (err e) next = record { output = output; outcome = err e }
write output (ok b) next = next (output ++ b)

-- the last write, and drain
abbrev pub write_body : Bytes → Bytes → Written
write_body body output =
    write output
      (encode_below 128 (
        str "Content-Length: "
        ++ (show_nat (length body)
            ++ (line_end ++ (str "Connection: close" ++ (line_end ++ line_end))))))
      (λ output. record { output = output ++ body; outcome = ok tt })

-- the loop over the headers
unfoldable pub write_headers : HeaderList → Bytes → Bytes → Written
write_headers [] body output = write_body body output
write_headers ((name, value) ∷ headers) body output =
    write output (encode_below 256 (name ++ (str ": " ++ (value ++ line_end))))
      (write_headers headers body)

unfoldable pub write_parts : ℤ → Text → HeaderList → Bytes → Written
write_parts status reason headers body =
    write []
      (encode_below 128 (str "HTTP/1.1 " ++ (show_int status ++ (str " " ++ (reason ++ line_end)))))
      (write_headers headers body)

abbrev pub reason_or_empty : Option Text → Text
reason_or_empty none = []
reason_or_empty (some reason) = reason

abbrev pub error_headers : HeaderList
error_headers = (str "content-type", str "text/plain; charset=utf-8") ∷ []

abbrev pub write_error : Result Bytes → Written
write_error (err e) = record { output = []; outcome = err e }
write_error (ok body) = write_parts (pos 502) (str "Bad Gateway") error_headers body

-- write_response. A request has no attribute `status_code`.
unfoldable pub write_response : Unicode → Message → Written
write_response u (error e) = write_error (encode_utf8 e.message)
write_response u (response r) =
    write_parts r.status_code (reason_or_empty r.reason_phrase) (filter_forward_headers u r.headers)
      r.body
write_response u (request r) = record { output = []; outcome = err foreign }
