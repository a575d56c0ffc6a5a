-- ===== src/Runner/ProofMode/Proof.antt =====
-- The proof that a run in proof mode writes.
use keth.Prelude.{length, ◌<◌, String, Option, some, none, Bool, ◌≡◌, ap, ◌∙◌}
use keth.Python.{runtime_error, os_error, success}
use keth.Runner.Disk.{Disk}
use keth.Runner.Disk.Written.{Works}
use keth.Runner.Files.{or_raise, and_then}
use keth.Runner.ProofMode.{Proving, verify_if, save_proof, encode_proof, make_proof, write_proof}
use keth.Runner.Files.Writes.{write_file-Writes}

abbrev pub proof_path_of : {D : Type 0} → Disk D → String → Option String → String
proof_path_of disk output_dir none = disk.join output_dir "proof.json"
proof_path_of disk output_dir (some path) = path

module _ {D X P H A I Q S : Type 0} {disk : Disk D} {Used : String → Type 0}
    (works : Works disk Used) (proving : Proving X P H A I Q S) where
  save_proof-Writes :
      (output_dir : String) (proof_path : Option String) (verify : Bool) (proof : Q) (json : String)
      (d : D)
      → Used (proof_path_of disk output_dir proof_path)
      → length (disk.as_bytes json) < works.room d
      → (d' : D) × (save_proof disk proving output_dir proof_path verify proof json d
          ≡ verify_if disk proving verify proof d')
        × (works.contents d' (proof_path_of disk output_dir proof_path) ≡ some (disk.as_bytes json))
  save_proof-Writes output_dir (some path) verify proof json d ours enough =
      let (d', wrote, now, taken, others) =
        write_file-Writes works path (disk.as_bytes json) d ours enough in
      (
        d',
        ap (λ r. and_then (or_raise os_error r.0, r.1) λ u. verify_if disk proving verify proof)
            wrote,
        now,
      )
  save_proof-Writes output_dir none verify proof json d ours enough =
      let path = disk.join output_dir "proof.json" in
      let (d', wrote, now, taken, others) =
        write_file-Writes works path (disk.as_bytes json) d ours enough in
      (
        d',
        ap (λ r. and_then (or_raise os_error r.0, r.1) λ u. verify_if disk proving verify proof)
            wrote,
        now,
      )

  -- The proof's file, and the result of the verification.
  pub write_proof_lem :
      (output_dir : String) (proof_path : Option String) (verify : Bool) (runner : A) (input : I)
      (proof : Q) (json : String) (d : D)
      → proving.adapt runner ≡ success input
      → proving.prove input ≡ success proof
      → proving.proof_json proof ≡ success json
      → Used (proof_path_of disk output_dir proof_path)
      → length (disk.as_bytes json) < works.room d
      → (d' : D) × (write_proof disk proving output_dir proof_path verify runner d
          ≡ verify_if disk proving verify proof d')
        × (works.contents d' (proof_path_of disk output_dir proof_path) ≡ some (disk.as_bytes json))
  unfolding write_proof
  write_proof_lem output_dir proof_path verify runner input proof json d adapted proved encoded ours
        enough =
      let (d', saved, now) =
        save_proof-Writes output_dir proof_path verify proof json d ours enough in
      (
        d',
        ap
              (λ t.
                and_then (or_raise runtime_error t, d)
                  (make_proof disk proving output_dir proof_path verify))
              adapted
            ∙ ap
                (λ t.
                  and_then (or_raise runtime_error t, d)
                    (encode_proof disk proving output_dir proof_path verify))
                proved
            ∙ ap
                (λ t.
                  and_then (or_raise runtime_error t, d)
                    (save_proof disk proving output_dir proof_path verify proof))
                encoded
            ∙ saved,
        now,
      )
