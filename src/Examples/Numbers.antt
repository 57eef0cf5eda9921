-- ===== src/Examples/Numbers.antt =====
-- Canonical numbers of example tokens.
use piace.Base.{true, some, ◌*◌, ◌^◌, inl, inr, ◌≡◌, refl, arith, ◌==◌, string_eq, if◌then◌else◌}
use piace.Base.Decimal.{decimal}
use piace.Base.Order.{str_le}
use piace.Base.Sort.{sort}
use piace.Model.Value.{obj, num, str, field, end}
use piace.Normalize.Values.{ValueError}
use piace.Snapshot.Number.{Rat, divide_out, number_of, canonical_number}
use piace.Snapshot.Number.Laws.{IsDividedOut, divide_out_ends}
use piace.Snapshot.Number.Reading.{read}
use piace.Snapshot.Number.Exact.{number_of-exact}
use piace.Snapshot.Canonical.{Encoder, canonical_json, encode_canonical, encode_fields}

-- Minus three eighths.
abbrev three_eighths : Rat
three_eighths = record { negative = true; num = 3; den = 8 }

eighths : number_of three_eighths ≡ inr "-0.375"
unfolding number_of decimal
eighths = refl

budget : canonical_number (λ s. some three_eighths) "1e1025" ≡ inl ValueError.numeric_budget
unfolding canonical_number
budget = refl

number_of-exact_example :
    ((read "-0.375").0 ≡ true) × ((read "-0.375").1.0 * 8 ≡ 3 * 10 ^ (read "-0.375").1.1)
number_of-exact_example =
    number_of-exact three_eighths "-0.375" (omega arith) (λ n. omega arith) eighths

divide_out_ends_example :
    IsDividedOut 2 40 (divide_out 2 40 40) × IsDividedOut 5 40 (divide_out 5 40 40)
divide_out_ends_example = divide_out_ends 40 (omega arith)

abbrev encoder : Encoder
encoder = record {
  text = λ s. if s == "b" then some "\"b\"" else some "\"a\"";
  set_string = λ s. some three_eighths;
}

sorted_keys :
    canonical_json encoder (obj (field "b" (num "-3.75e-1") (field "a" (str "a") end)))
    ≡ some "{\"a\":\"a\",\"b\":-0.375}"
unfolding canonical_json encode_canonical encode_fields sort str_le decimal
sorted_keys = refl
