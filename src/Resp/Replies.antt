-- ===== src/Resp/Replies.antt =====
-- The RESP2 reply encoders of src/resp.cpp and include/resp.h. The output buffer is passed in and
-- returned.
use cpp_inference_engine.Base.{ℕ, List, [], ◌∷◌, ◌++◌, Bytes, codes, if◌then◌else◌, length}
use cpp_inference_engine.Base.Int.{ℤ, pos}
use cpp_inference_engine.Base.Decimal.{to_string, print_nat}
use cpp_inference_engine.Base.Double.{is_nan, deq}

abbrev pub cr : ℕ
cr = 13

abbrev pub lf : ℕ
lf = 10

abbrev pub crlf : Bytes
crlf = cr ∷ lf ∷ []

unfoldable pub append_simple_reply : Bytes → Bytes → Bytes
append_simple_reply out s = out ++ b'+' ∷ (s ++ crlf)

unfoldable pub append_error_reply : Bytes → Bytes → Bytes
append_error_reply out s = out ++ b'-' ∷ (s ++ crlf)

unfoldable pub append_int_reply : Bytes → ℤ → Bytes
append_int_reply out v = out ++ b':' ∷ (to_string v ++ crlf)

unfoldable pub append_bulk_reply : Bytes → Bytes → Bytes
append_bulk_reply out s = out ++ b'$' ∷ (print_nat (length s) ++ (crlf ++ (s ++ crlf)))

unfoldable pub append_null_bulk_reply : Bytes → Bytes
append_null_bulk_reply out = out ++ (codes "$-1" ++ crlf)

unfoldable pub append_array_reply : Bytes → ℤ → Bytes
append_array_reply out n = out ++ b'*' ∷ (to_string n ++ crlf)

unfoldable pub append_null_array_reply : Bytes → Bytes
append_null_array_reply out = out ++ (codes "*-1" ++ crlf)

unfoldable pub append_empty_array_reply : Bytes → Bytes
append_empty_array_reply out = out ++ (codes "*0" ++ crlf)

unfoldable pub append_bulks : Bytes → List Bytes → Bytes
append_bulks out [] = out
append_bulks out (s ∷ items) = append_bulks (append_bulk_reply out s) items

unfoldable pub append_bulk_array : Bytes → List Bytes → Bytes
unfolding append_bulks
append_bulk_array out items = append_bulks (append_array_reply out (pos (length items))) items

-- `print_17g` is `snprintf("%.17g")`
unfoldable pub append_double_reply : (ℕ → Bytes) → Bytes → ℕ → Bytes
append_double_reply print_17g out d =
    out ++ ((if is_nan d then codes "nan" else if deq d 0 then codes "0" else print_17g d) ++ crlf)
