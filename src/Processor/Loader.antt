-- ===== src/Processor/Loader.antt =====
-- hint_loader.rs, and the two hints of hints.rs: what the hint processor is made from.
use Prim.Native.String.{◌++◌}
use keth.Prelude.{String, List, [], ◌∷◌, Action}
use keth.Python.{PyResult, success, ◌>>=◌}
use keth.Python.ConstsDict.{put}
use keth.Processor.{Hint}

-- What the loader uses of pyo3, with Python objects `O`.
pub record Modules (O : Type 0) : Type 0 where
  pub import : String → PyResult O
  pub getattr : O → String → PyResult O
  -- `downcast::<PyDict>()`, with the dictionary's items in their order
  pub dict_items : O → PyResult (List (O × O))
  pub extract_string : O → PyResult String

module _ {O : Type 0} (py : Modules O) where
  -- the loop of `load_python_hints`
  unfoldable pub collect_hints :
      List (O × O) → List (String × String) → PyResult (List (String × String))
  collect_hints [] hints = success hints
  collect_hints ((key, value) ∷ items) hints = py.extract_string key >>= λ k.
      py.extract_string value >>= λ v. collect_hints items (put k v hints)

  unfoldable pub load_python_hints : PyResult (List (String × String))
  unfolding collect_hints
  load_python_hints = py.import "cairo_addons.hints" >>= λ hints_module.
      py.getattr hints_module "implementations" >>= λ impl_attr.
      py.dict_items impl_attr >>= λ implementations. collect_hints implementations []

abbrev pub sha256_finalize_code : String
sha256_finalize_code =
    "# Add dummy pairs of input and output.\n"
    ++ "from starkware.cairo.common.cairo_sha256.sha256_utils import (\n"
    ++ "    IV,\n    compute_message_schedule,\n    sha2_compress_function,\n)\n\n"
    ++ "number_of_missing_blocks = (-ids.n) % ids.BATCH_SIZE\n"
    ++ "assert 0 <= number_of_missing_blocks < 20\n"
    ++ "_sha256_input_chunk_size_felts = ids.SHA256_INPUT_CHUNK_SIZE_FELTS\n"
    ++ "assert 0 <= _sha256_input_chunk_size_felts < 100\n\n"
    ++ "message = [0] * _sha256_input_chunk_size_felts\n"
    ++ "w = compute_message_schedule(message)\n" ++ "output = sha2_compress_function(IV, w)\n"
    ++ "padding = (message + IV + output) * number_of_missing_blocks\n"
    ++ "segments.write_arg(ids.sha256_ptr_end, padding)"

-- The functions are those of cairo-vm.
unfoldable pub add_segment_hint : {W Ids C : Type 0} → Action W (Unit {0}) → Hint W Ids C
add_segment_hint add_segment = record {
  id = "memory[ap] = to_felt_or_relocatable(segments.add())";
  func = λ ids constants. add_segment;
}

unfoldable pub finalize_sha256_hint :
    {W Ids C : Type 0} → (Ids → Action W (Unit {0})) → Hint W Ids C
finalize_sha256_hint sha256_finalize = record {
  id = sha256_finalize_code;
  func = λ ids constants. sha256_finalize ids;
}
