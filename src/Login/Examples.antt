-- ===== src/Login/Examples.antt =====
-- A protector under the default policy.
use control_center_developme.Prelude.{arith, ◌≡◌, refl, none, [], ◌∷◌, find, size, List}
use control_center_developme.Login.Protection.{
  default_login_protection_policy, KeyPlatform, LoginProtector, new_login_protector,
}
use control_center_developme.Login.Bounds.{
  ask, Call, failed, IsWithin, run, run-IsWithin, succeeded,
}
use control_center_developme.Login.Blocking.{BlocksAtLimit, failures-BlocksAtLimit, record_failures}

abbrev platform_1 : KeyPlatform
platform_1 = record {
  protected_login_key = λ kind value. Prim.Native.String.◌++◌ kind value;
  to_lower = λ text. text;
  parse_ip = λ text. none;
}

abbrev protector_1 : LoginProtector
protector_1 = new_login_protector default_login_protection_policy

abbrev calls_1 : List Call
calls_1 = failed "alice" "10.0.0.1" 5 ∷ ask "alice" "10.0.0.1" 6 ∷ succeeded "alice" ∷ []

run-IsWithin_example : IsWithin default_login_protection_policy (run platform_1 calls_1 protector_1)
run-IsWithin_example = run-IsWithin platform_1 default_login_protection_policy calls_1

unknown_key : find "key" protector_1.buckets ≡ none
unfolding find
unknown_key = refl

failures-BlocksAtLimit_example :
    BlocksAtLimit "key" 8 12
      (record_failures "key" 8 (5 ∷ 6 ∷ 7 ∷ 8 ∷ 9 ∷ 10 ∷ 11 ∷ []) protector_1)
failures-BlocksAtLimit_example =
    failures-BlocksAtLimit "key" 8 5 12 (6 ∷ 7 ∷ 8 ∷ 9 ∷ 10 ∷ 11 ∷ []) protector_1 unknown_key
      (unfold size in omega arith) (omega arith) (omega arith)
      (omega arith, (omega arith, (omega arith, (omega arith, (omega arith, (omega arith, tt))))))
      (omega arith) (omega arith)
