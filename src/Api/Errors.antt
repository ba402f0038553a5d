-- ===== src/Api/Errors.antt =====
-- apps/web/src/lib/api.ts: what a request carries, and what its response becomes.
--
-- What a body holds as JSON is an argument, and so is Number, which a delay of the server goes
-- through.
use youtube_rooms.Prelude.{
  ℕ, Bool, true, false, not, ◌||◌, Option, none, some, List, [], ◌∷◌, ◌++◌, ◌==◌, leb,
  if◌then◌else◌,
}
use youtube_rooms.Prelude.Text.{Text, codes, is_empty, same_text}
use youtube_rooms.Api.{is_ok}

-- A Record<string, string>, and the member of a key.
abbrev pub Fields : Type 0
Fields = List (Text × Text)

abbrev pub get_field : Text → Fields → Option Text
get_field key [] = none
get_field key ((k, message) ∷ fs) = if same_text k key then some message else get_field key fs

-- ApiError, with the delay as the header's number of seconds.
pub record ApiError {ℓ} (N : Type ℓ) : Type ℓ where
  pub status : ℕ
  pub code : Text
  pub message : Text
  pub fields : Option Fields
  pub retry_after : Option N

-- isTransient
unfoldable pub is_transient {ℓ} : {N : Type ℓ} → ApiError N → Bool
is_transient e = leb 500 e.status || e.status == 429

-- The `error` of the schema apiError.
pub record ErrorBody : Type 0 where
  pub code : Text
  pub message : Text
  pub fields : Option Fields
  pub request_id : Option Text

-- A response: `error` is what the schema makes of its body, none where it takes none of it or the body
-- is no JSON.
pub record Response : Type 0 where
  pub status : ℕ
  pub status_text : Text
  pub error : Option ErrorBody
  pub retry_after : Option Text

abbrev pub or_text : Text → Text → Text
or_text other t = if is_empty t then other else t

module _ {ℓ} {N : Type ℓ} (to_number : Text → N) where
  abbrev pub delay_of : Option Text → Option N
  delay_of none = none
  delay_of (some header) = if is_empty header then none else some (to_number header)

  abbrev pub api_error : Response → Option ErrorBody → ApiError N
  api_error response none = record {
    status = response.status;
    code = codes "unknown";
    message = or_text (codes "Request failed") response.status_text;
    fields = none;
    retry_after = delay_of response.retry_after;
  }
  api_error response (some body) = record {
    status = response.status;
    code = body.code;
    message = body.message;
    fields = body.fields;
    retry_after = delay_of response.retry_after;
  }

  -- toApiError
  unfoldable pub to_api_error : Response → ApiError N
  to_api_error response = api_error response response.error

-- How a call ends that is not repeated: with nothing, with the JSON of the body, or with an error.
pub data Outcome {ℓ κ} (N : Type ℓ) (A : Type κ) : Type (ℓ ⊔ κ) where
  nothing : Outcome N A
  body : A → Outcome N A
  throws : ApiError N → Outcome N A

unfoldable pub settle {ℓ κ} : {N : Type ℓ} {A : Type κ} → (Text → N) → Response → A → Outcome N A
unfolding to_api_error
settle to_number response json =
    if not (is_ok response.status)
    then throws (to_api_error to_number response)
    else if response.status == 204
    then nothing
    else body json

-- The headers: those of the options come last, and stand over the others.
abbrev pub content_type : Bool → Fields
content_type true = (codes "Content-Type", codes "application/json") ∷ []
content_type false = []

abbrev pub authorization : Option Text → Fields
authorization none = []
authorization (some token) =
    if is_empty token then [] else (codes "Authorization", codes "Bearer " ++ token) ∷ []

unfoldable pub headers : Bool → Option Text → Fields → Fields
headers has_body token given = given ++ authorization token ++ content_type has_body
