-- ===== src/Orchestration/Errors.antt =====
-- apps/desktop-backend/app/orchestration/errors.py and security.py: failures that show no
-- credentials. Python's `re` is a parameter: the two substitutions that the source compiles.
use Prim.Native.Char.{code}
use real_time_surveillance_a.Base.{
  ℕ, zero, suc, ◌≤◌, String, ◌||◌, Option, some, arith, if◌then◌else◌, ◌==◌, comparable_nat,
  comparable_text, comparable_pair,
}

pub data FailureCategory : Type 0 where
  configuration capacity capture model pipeline callback sink scheduler shutdown internal :
      FailureCategory

pub record OrchestrationFailure : Type 0 where
  pub category : FailureCategory
  pub summary : String

pub record OrchestrationError : Type 0 where
  pub category : FailureCategory
  pub camera_id : Option String
  pub public_message : String

pub failure : OrchestrationError → OrchestrationFailure
failure e = record { category = e.category; summary = e.public_message }

pub record Patterns : Type 0 where
  pub redact_url : String → String
  pub redact_assignment : String → String

-- `.replace("\r", " ").replace("\n", " ")`
pub single_line : String → String
single_line String.[] = String.[]
single_line (String.◌∷◌ c s) =
    let rest = single_line s in
    if code c == 13 || code c == 10 then String.◌∷◌ " " rest else String.◌∷◌ c rest

-- `message[:n]`
pub truncated : ℕ → String → String
truncated zero s = String.[]
truncated (suc n) String.[] = String.[]
truncated (suc n) (String.◌∷◌ c s) = String.◌∷◌ c (truncated n s)

pub characters : String → ℕ
characters String.[] = 0
characters (String.◌∷◌ c s) = suc (characters s)

-- What a `try` block catches: an error of this module, or any other with its text.
pub data Raised : Type 0 where
  orchestration : OrchestrationError → Raised
  other : String → Raised

module _ (re : Patterns) where
  open re use {redact_url, redact_assignment}

  pub sanitize_error : String → String
  unfolding single_line truncated
  sanitize_error message = truncated 500 (redact_assignment (redact_url (single_line message)))

  -- `OrchestrationError(category, camera_id, message)`
  pub orchestration_error : FailureCategory → Option String → String → OrchestrationError
  orchestration_error category camera_id message = record {
    category = category;
    camera_id = camera_id;
    public_message = sanitize_error message;
  }

  -- `CameraWorker._public_error`
  pub public_error : FailureCategory → String → Raised → OrchestrationError
  public_error category camera_id (orchestration e) = e
  public_error category camera_id (other message) =
      orchestration_error category (some camera_id) (sanitize_error message)

  characters-truncated : (n : ℕ) (s : String) → characters (truncated n s) ≤ n
  unfolding characters truncated
  characters-truncated zero s = omega arith
  characters-truncated (suc n) String.[] = omega arith
  characters-truncated (suc n) (String.◌∷◌ c s) = omega (arith, characters-truncated n s)

  -- A public message has at most 500 characters, whatever was raised.
  pub sanitize_error_bounded : (message : String) → characters (sanitize_error message) ≤ 500
  unfolding sanitize_error
  sanitize_error_bounded message = characters-truncated 500 _
