-- ===== src/Capabilities/Schemas.antt =====
-- app/capabilities/schemas.py.
use orchestration_system.Common.{ℕ, String, Bool, not, Option, List, is_empty}
use orchestration_system.Enums.{ProviderType}

-- A smaller priority comes first; it is a natural number here, as every one in the sources is.
pub record ProviderSpec : Type 0 where
  pub name : String
  pub type : ProviderType
  pub priority : ℕ
  pub status : String

pub record CapabilitySpec : Type 0 where
  pub name : String
  pub description : Option String
  pub providers : List ProviderSpec

pub record MatchedProvider : Type 0 where
  pub capability : String
  pub provider_name : String
  pub provider_type : ProviderType

pub record GapAnalysisResult : Type 0 where
  pub required : List String
  pub matched : List MatchedProvider
  pub missing : List String

unfoldable pub has_gap : GapAnalysisResult → Bool
has_gap result = not (is_empty result.missing)
