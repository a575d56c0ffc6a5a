-- ===== src/Atlantic.antt =====
-- The crate crates/atlantic, a client of a service that makes proofs: its endpoints, and the request
-- that submits a run. The HTTP client and URLs are those of reqwest and url.
pub mod Endpoints
use keth.Prelude.{ℕ, String, List, [], ◌∷◌, map}
use keth.Python.{Try, success, failure, panicked, map_failure}
use keth.Atlantic.Endpoints.{
  SharpSdkError, reqwest_error, Urls, ProofTraceEndpoints,
  proof_generation as proof_generation_endpoint, proof_trace_url,
}

-- prover.rs
pub data ProverVersion : Type 0 where
  starkware : ProverVersion
  herodotus : ProverVersion

unfoldable pub display_prover : ProverVersion → String
display_prover starkware = "starkware_sharp"
display_prover herodotus = "herodotus_stone"

pub record QueryResponse : Type 0 where
  pub atlantic_query_id : String

pub record SharpSdk (U : Type 0) : Type 0 where
  pub api_key : String
  pub base_url : U

-- A part of a form: a file with its name and type, or a text.
pub data Part (Mime : Type 0) : Type 0 where
  file : String → List ℕ → String → Mime → Part Mime
  text : String → String → Part Mime

pub record Request (U Mime : Type 0) : Type 0 where
  pub url : U
  pub query : List (String × String)
  pub form : List (Part Mime)

-- What the code calls of reqwest, over a network (`N`), with responses `Resp` and errors by text.
pub record Reqwest (U Mime Resp N : Type 0) : Type 0 where
  pub mime_str : String → Try String Mime
  pub post : Request U Mime → N → Try String Resp × N
  pub json : Resp → N → Try String QueryResponse × N

abbrev pub and_send :
    {A B N : Type 0}
    → Try SharpSdkError A × N
    → (A → N → Try SharpSdkError B × N)
    → Try SharpSdkError B × N
and_send (success a, n) next = next a n
and_send (failure e, n) next = (failure e, n)
and_send (panicked, n) next = (panicked, n)

unfoldable pub proof_generation :
    {U Mime Resp N : Type 0}
    → Urls U
    → Reqwest U Mime Resp N
    → SharpSdk U
    → List ℕ
    → String
    → ProverVersion
    → N
    → Try SharpSdkError QueryResponse × N
unfolding display_prover proof_trace_url
proof_generation urls http self pie_file layout prover n =
    and_send (map_failure (http.mime_str "application/zip") reqwest_error, n)
      λ mime n1.
        and_send (proof_trace_url urls proof_generation_endpoint self.base_url, n1)
          λ url n2.
            let request : Request _ _ = record {
              url = url;
              query = ("apiKey", self.api_key) ∷ [];
              form =
                  file "pieFile" pie_file "pie.zip" mime
                  ∷ text "layout" layout
                  ∷ text "prover" (display_prover prover)
                  ∷ [];
            } in
            let (sent, n3) = http.post request n2 in
            and_send (map_failure sent reqwest_error, n3)
              λ response n4.
                let (read, n5) = http.json response n4 in (map_failure read reqwest_error, n5)
