-- ===== src/DurableObjects/GrantingExamples.antt =====
-- The decisions of src/durable-objects.ts for a trusted user and for a repository that GitHub shows.
use jsrproxy.Common.{
  ℕ, ◌<◌, ◌≡◌, refl, ◌⊎◌, true, false, Option, none, some, [], ◌∷◌, Text, codes, ok, Result,
  text_eq,
}
use jsrproxy.Common.Http.{Request, Response, json_response}
use jsrproxy.Common.Json.{Json, str}
use jsrproxy.Common.Map.{get, set}
use jsrproxy.Auth.{GitHubDecision, classify_github_response}
use jsrproxy.DurableObjects.Printing.{object, array}
use jsrproxy.DurableObjects.Storage.{Storage}
use jsrproxy.DurableObjects.Admission.{
  decision_response, check_admission, authorize, AuthorizationRequest, repository_key,
  parse_authorization,
}
use jsrproxy.DurableObjects.Granting.{IsAdmitted, check_admission-granted}
use jsrproxy.DurableObjects.Authorizing.{IsAuthorized, authorize-granted}

abbrev post : Text → Json → Request
post pathname body = record {
  method = codes "POST";
  url = record {
    protocol = codes "https:";
    hostname = codes "object.internal";
    port = [];
    pathname = pathname;
    search = [];
  };
  headers = [];
  json = some body;
  bytes = [];
}

abbrev check : Request
check = post (codes "/check") (object ((codes "pat", str (codes "p")) ∷ []))

-- GitHub's answers: a user, and a repository.
abbrev github_user : Response
github_user = json_response 200 [] (object ((codes "login", str (codes "ada")) ∷ []))

abbrev github_repository : Response
github_repository = json_response 200 [] (object ((codes "name", str (codes "tool")) ∷ []))

abbrev fetch_user : Text → Text → Option Response
fetch_user url pat = some github_user

abbrev fetch_repository : Text → Text → Option Response
fetch_repository url pat = some github_repository

-- What `JSON.parse` makes of the configuration.
abbrev parse : Text → Option Json
parse s = some (object ((codes "trusted_github_users", array (str (codes "ada") ∷ [])) ∷ []))

abbrev config : Option Text
config = some (codes "{}")

abbrev granting : GitHubDecision
granting = record { granted = true; expires_at = 61_000 }

checks :
    check_admission parse config fetch_user 900 1_000 none none check
    ≡ ok (decision_response granting, some granting)
unfolding check_admission jsrproxy.Common.text_beq jsrproxy.DurableObjects.Admission.admission_pat
    jsrproxy.Common.Json.as_string jsrproxy.Common.Json.field jsrproxy.Common.Json.of_entries
    jsrproxy.DurableObjects.Admission.unexpired jsrproxy.DurableObjects.Admission.admitted
    classify_github_response jsrproxy.Config.parse_config jsrproxy.Config.parse_scopes
    jsrproxy.Config.object_entries jsrproxy.Config.trusted_users jsrproxy.Common.Json.as_array
    jsrproxy.Config.user_names jsrproxy.Common.Json.of_list jsrproxy.Common.any
    jsrproxy.DurableObjects.Admission.is_trusted jsrproxy.Common.Http.is_ok
    jsrproxy.Common.Http.json_of jsrproxy.Common.Json.elements jsrproxy.Common.Json.member_of
checks = refl

check_admission-granted_example :
    (◌≡◌ {A = Option GitHubDecision} none (some granting) × (900 < 61_000))
    ⊎ IsAdmitted parse config fetch_user 900 1_000 none none check granting
check_admission-granted_example =
    check_admission-granted parse config fetch_user 900 1_000 none none check granting
      (some granting) checks refl

abbrev input : AuthorizationRequest
input = record {
  fingerprint = codes "f";
  owner = codes "acme";
  repository = codes "tool";
  pat = codes "p";
}

abbrev authorization : Request
authorization = post (codes "/authorize") (
    object (
      (codes "fingerprint", str (codes "f"))
      ∷ (codes "owner", str (codes "acme"))
      ∷ (codes "repository", str (codes "tool"))
      ∷ (codes "pat", str (codes "p"))
      ∷ []))

abbrev same_text : Text → Text
same_text s = s

abbrev encode : Text → Option Text
encode s = some s

abbrev empty_storage : Storage
empty_storage = record { cache = []; sql = some none }

abbrev with_decision : Storage
with_decision = record { cache = (codes "repository:f", granting) ∷ []; sql = some none }

reads_input : parse_authorization authorization.json ≡ some input
unfolding parse_authorization jsrproxy.Common.Json.as_string jsrproxy.Common.Json.field
    jsrproxy.Common.Json.of_entries jsrproxy.Common.text_beq
reads_input = refl

authorizes :
    authorize same_text encode fetch_repository 900 1_000 empty_storage empty_storage authorization
    ≡ ok (decision_response granting, with_decision)
unfolding authorize parse_authorization jsrproxy.Common.Json.as_string jsrproxy.Common.Json.field
    jsrproxy.Common.Json.of_entries jsrproxy.Common.text_beq
    jsrproxy.DurableObjects.Admission.unexpired get jsrproxy.DurableObjects.Admission.authorized
    classify_github_response jsrproxy.DurableObjects.Admission.named_decision set
    jsrproxy.Common.Http.json_of
authorizes = refl

authorize-granted_example :
    ((get empty_storage.cache (repository_key (codes "f")) ≡ some granting) × (900 < 61_000))
    ⊎ IsAuthorized same_text encode fetch_repository 900 1_000 empty_storage empty_storage
        authorization input reads_input granting
authorize-granted_example =
    authorize-granted same_text encode fetch_repository 900 1_000 empty_storage empty_storage
      authorization input reads_input granting with_decision authorizes refl
