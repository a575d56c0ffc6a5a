-- ===== src/Atlantic/Endpoints.antt =====
-- endpoints.rs and error.rs of crates/atlantic: the URLs of the service.
use keth.Prelude.{String}
use keth.Python.{Try, map_failure}

-- The errors of the libraries by their text.
pub data SharpSdkError : Type 0 where
  reqwest_error : String → SharpSdkError
  serde_error : String → SharpSdkError
  file_error : String → SharpSdkError
  url_parse_error : String → SharpSdkError
  missing_program_hash_or_file : SharpSdkError

-- `Url::join`
pub record Urls (U : Type 0) : Type 0 where
  pub join : U → String → Try String U

pub data ProofTraceEndpoints : Type 0 where
  proof_generation : ProofTraceEndpoints
  trace_generation : ProofTraceEndpoints
  trace_generation_proof_generation : ProofTraceEndpoints

pub data L2Endpoints : Type 0 where
  atlantic_query : L2Endpoints
  proof_generation_verification : L2Endpoints
  proof_verification : L2Endpoints

pub data SharpQueryEndpoints : Type 0 where
  queries : SharpQueryEndpoints
  query : SharpQueryEndpoints
  query_jobs : SharpQueryEndpoints

pub data HealthCheckEndpoints : Type 0 where
  is_alive : HealthCheckEndpoints

pub data ProgramRegistryEndpoints : Type 0 where
  submit_program : ProgramRegistryEndpoints

module _ {U : Type 0} (urls : Urls U) where
  abbrev pub joined : U → String → Try SharpSdkError U
  joined base_url path = map_failure (urls.join base_url path) url_parse_error

  unfoldable pub proof_trace_url : ProofTraceEndpoints → U → Try SharpSdkError U
  proof_trace_url proof_generation base_url = joined base_url "proof-generation"
  proof_trace_url trace_generation base_url = joined base_url "trace-generation"
  proof_trace_url trace_generation_proof_generation base_url =
      joined base_url "trace-generation-proof-generation"

  unfoldable pub l2_url : L2Endpoints → U → Try SharpSdkError U
  l2_url atlantic_query base_url = joined base_url "l2/atlantic-query"
  l2_url proof_generation_verification base_url =
      joined base_url "l2/atlantic-query/proof-generation-verification"
  l2_url proof_verification base_url = joined base_url "l2/atlantic-query/proof-verification"

  unfoldable pub sharp_query_url : SharpQueryEndpoints → U → Try SharpSdkError U
  sharp_query_url queries base_url = joined base_url "atlantic-queries"
  sharp_query_url query base_url = joined base_url "atlantic-query"
  sharp_query_url query_jobs base_url = joined base_url "atlantic-query-jobs"

  unfoldable pub health_check_url : HealthCheckEndpoints → U → Try SharpSdkError U
  health_check_url is_alive base_url = joined base_url "is-alive"

  unfoldable pub program_registry_url : ProgramRegistryEndpoints → U → Try SharpSdkError U
  program_registry_url submit_program base_url = joined base_url "submit-program"
