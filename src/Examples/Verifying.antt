-- ===== src/Examples/Verifying.antt =====
-- quality.py on an answer of a specialized model, whose text stands for its own JSON value.
use ecoroute_ht.Base.{◌≡◌, refl, String, true, false, [], ◌∷◌, some, str_eq, any, all}
use text.Mathlib.Text.{starts_with}
use Prim.Native.String.{count}
use ecoroute_ht.Numbers.{millionths}
use ecoroute_ht.Schemas.{TaskType}
use ecoroute_ht.Routing.Quality.{
  Number, is_below, Contract, Checks, ResponseFormat, promises, format_error, all_known,
  check_contract, check_support, after_format, verify_output,
}
use ecoroute_ht.Routing.Accepted.{IsAccepted, verify_output-IsAccepted}

abbrev support : Contract millionths String
support = record {
  answer = "30 days";
  confidence = Number.number 900000;
  policy_ids = "returns-30-day" ∷ [];
  needs_human = false;
}

abbrev pub checks : Checks millionths String
checks = record {
  is_blank = λ s. str_eq s "";
  len = count;
  has_secret = λ s. starts_with s "sk-";
  lower = λ s. s;
  contains = λ phrase s. str_eq phrase s;
  loads = λ s. some s;
  contract = λ v. some support;
  is_schema = λ v. true;
  validates = λ schema v. true;
}

verify_output-IsAccepted_example :
    (false ≡ false)
    × IsAccepted millionths String checks TaskType.policy_qa true ResponseFormat.json_object 32000
        800000 "{answer}"
unfolding is_below promises format_error all_known check_contract check_support after_format
    verify_output any all
verify_output-IsAccepted_example =
    verify_output-IsAccepted millionths String checks TaskType.policy_qa true
      ResponseFormat.json_object 32000 800000 "{answer}" false refl
