-- ===== src/Examples/Onboarding.antt =====
-- The first login after an approval, at concrete tables.
use proindustrial_backend.Common.{
  arith, nat_eq, refl, some, string_eq, text_eq, true, ◌&&◌, ◌==◌, ◌≡◌,
}
use proindustrial_backend.Common.Text.{codes}
use proindustrial_backend.Admin.{ApproveRegistrationResult}
use proindustrial_backend.Examples.{driver, from_ok, same, world}
use proindustrial_backend.Examples.Repository.{approval, approval_returns, no_result}
use proindustrial_backend.Http.{answer}
use proindustrial_backend.Login.{Crypto, login_as}
use proindustrial_backend.Login.Onboarding.{approve-login}

-- A hash that one password matches, and a token that is the same for all claims.
abbrev crypto : Crypto
crypto = record {
  matches = λ hash password. hash == "hash" && password == codes "pw";
  hash = λ n password. some "hash";
  sign = λ secret claims. some (codes "t");
}

abbrev approved_result : ApproveRegistrationResult
approved_result = from_ok no_result approval.0

approve-login_example :
    (login_as driver crypto "s" "provider" approved_result.user.email (codes "pw") approval.1).0
    ≡ answer 200 (record {
      token = codes "t";
      user_id = approved_result.user.id;
      email = approved_result.user.email;
      role = "provider";
      must_change_password = true;
      company = some approved_result.company;
    })
approve-login_example =
    approve-login driver crypto "s" same "r1" "hash" (codes "pw") approved_result.user.email
      (codes "t") world {r = approved_result} (omega arith) approval_returns refl refl refl refl
      refl
