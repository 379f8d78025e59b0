-- ===== src/Samples/Forms.antt =====
-- A message with metrics in the flat form has the effect of the same message in the nested form.
use tracemate.Base.{true, false, none, [], ◌++◌, append-nil, codes, ◌≡◌, refl, sym, ap₂, ◌∙◌}
use tracemate.Message.{Json}
use tracemate.Metric.{Numbers}
use tracemate.Samples.{Conversions, At}
use tracemate.Samples.Nested.{nested_golang}
use tracemate.Samples.Process.{is_flat, tm_apm_server_version, flat_ops, nested_ops, sampled}
use tracemate.Samples.Same.{SameSystem, SameJvm, SameNodejs, system_same}
use tracemate.Samples.Same.Runtimes.{jvm_same, nodejs_same}

module _ (json : Json) (nums : Numbers) (conversions : Conversions nums json) (at : At) where
  golang_none :
      (m : json.Object)
      → json.get m (codes "golang") ≡ none
      → nested_golang nums json conversions at m ≡ []
  unfolding nested_golang
  golang_none m e = rw e refl

  -- A message of a server 7.15 in the flat form, and one of another server in the nested form that
  -- says the same of the system, the Java and the Node.js runtime and nothing of Go, make the same
  -- updates in the same order. The nested one has, where it has an object, the value that belongs
  -- into it.
  pub flat_nested_same :
      (m f : json.Object)
      → is_flat (tm_apm_server_version nums json conversions f) ≡ true
      → is_flat (tm_apm_server_version nums json conversions m) ≡ false
      → SameSystem json m f
      → SameJvm json m f
      → SameNodejs json m f
      → json.get m (codes "golang") ≡ none
      → (sampled nums json conversions at f).ops ≡ (sampled nums json conversions at m).ops
  unfolding sampled flat_ops nested_ops
  flat_nested_same m f flat nested s j n g =
      rw (flat, nested)
        (sym (
          ap₂ ◌++◌ (system_same json nums conversions at m f s) (
            ap₂ ◌++◌ (jvm_same json nums conversions at m f j) (
              ap₂ ◌++◌ (nodejs_same json nums conversions at m f n) (golang_none m g)
              ∙ append-nil _))))
