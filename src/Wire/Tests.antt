-- ===== src/Wire/Tests.antt =====
-- crates/core/src/wire.rs: runs, and the theorems at concrete messages.
use novachannel.Common.{
  ◌+◌, ◌<◌, ◌≡◌, refl, ◌⊎◌, true, List, [], ◌∷◌, arith, ok, err, length, Bytes, map,
}
use novachannel.Errors.{malformed}
use novachannel.Wire.{
  Reader, new_writer, new_reader, into_bytes, get_fixed, get_var, finished, from_be_bytes,
}
use novachannel.Wire.Fields.{Field, fixed, var, content, put_all, get_all, get_all-put_all}
use novachannel.Wire.Canonical.{Took, get_fixed-cases, ReadsVar, get_var-ReadsVar}

abbrev short_message : Bytes
short_message = 0 ∷ 0 ∷ 0 ∷ 0 ∷ 0 ∷ 0 ∷ 0 ∷ 2 ∷ 7 ∷ 9 ∷ 5 ∷ []

abbrev step1_fields : List Field
step1_fields = fixed (1 ∷ 2 ∷ []) ∷ var (7 ∷ 9 ∷ []) ∷ []

get_var_run :
    get_var (new_reader short_message) ≡ (ok (7 ∷ 9 ∷ []), record { buf = short_message; pos = 10 })
unfolding get_var get_fixed new_reader from_be_bytes
get_var_run = refl

-- A length that runs past the end is an error, and the prefix stays consumed.
get_var_past_end : get_var (new_reader (0 ∷ 0 ∷ 0 ∷ 0 ∷ 0 ∷ 0 ∷ 0 ∷ 9 ∷ 7 ∷ [])) ≡ (
  err (malformed "unexpected end of message"),
  record { buf = 0 ∷ 0 ∷ 0 ∷ 0 ∷ 0 ∷ 0 ∷ 0 ∷ 9 ∷ 7 ∷ []; pos = 8 },
)
unfolding get_var get_fixed new_reader from_be_bytes
get_var_past_end = refl

get_all-put_all_example :
    let (result, r) =
      get_all step1_fields (new_reader (into_bytes (put_all new_writer step1_fields))) in
    (result ≡ ok (map content step1_fields)) × (finished r ≡ true)
get_all-put_all_example = get_all-put_all step1_fields (omega arith)

get_fixed-cases_example :
    let r : Reader = record { buf = short_message; pos = 8 } in
    ((out : Bytes) × (r' : Reader) × (get_fixed 4 r ≡ (ok out, r'))
      × (length out ≡ 4)
      × Took r out r')
    ⊎ ((11 < 8 + 4) × (get_fixed 4 r ≡ (err (malformed "unexpected end of message"), r)))
get_fixed-cases_example = get_fixed-cases 4 (record { buf = short_message; pos = 8 }) (omega arith)

get_var-ReadsVar_example :
    ReadsVar
      (record { buf = short_message; pos = 0 })
      (get_var (record { buf = short_message; pos = 0 }))
get_var-ReadsVar_example =
    get_var-ReadsVar (record { buf = short_message; pos = 0 }) (omega arith) (omega arith)
