-- ===== src/Kubernetes/Secrets.antt =====
-- The secrets of an operation (pkg/iscsi/internal_kubernetes.go)
use Prim.Native.String
use csi_driver_for_windows_s.Prelude.{
  String, ◌==◌, Option, none, some, List, [], ◌∷◌, StringMap, if◌then◌else◌,
}
use csi_driver_for_windows_s.Text.{trim_space}
use csi_driver_for_windows_s.Exec.{pure}
use csi_driver_for_windows_s.Kubernetes.Objects.{SecretReference}
use csi_driver_for_windows_s.Kubernetes.Cluster.{Cluster, ClusterExec, request, get_secret}
use csi_driver_for_windows_s.Kubernetes.Strings.{first_param, expand_secret_template}

-- `csiParamPrefix`
abbrev pub csi_param_prefix : String
csi_param_prefix = "csi.storage.k8s.io/"

-- The claim and the volume that templates are filled with.
pub record TemplateNames : Type 0 where
  pub pvc_namespace : String
  pub pvc_name : String
  pub pv_name : String

-- The keys of an operation and of all operations, in this order.
abbrev secret_keys : (operation ending : String) → List String
secret_keys operation ending =
    String.◌++◌ csi_param_prefix (String.◌++◌ operation (String.◌++◌ "-secret-" ending))
    ∷ String.◌++◌ csi_param_prefix (String.◌++◌ "secret-" ending)
    ∷ []

unfoldable pub expand_names : TemplateNames → String → String
unfolding expand_secret_template
expand_names names value =
    expand_secret_template value names.pvc_namespace names.pvc_name names.pv_name

-- `secretRefForOperation`
unfoldable pub secret_ref_for_operation :
    StringMap → (operation : String) → TemplateNames → Option SecretReference
unfolding first_param expand_names
secret_ref_for_operation params operation names =
    let name = first_param params (secret_keys operation "name") in
    let namespace = first_param params (secret_keys operation "namespace") in
    if name == ""
    then none
    else some (record {
      name = expand_names names name;
      namespace = expand_names names (if namespace == "" then names.pvc_namespace else namespace);
    })

module _ {S : Type 0} (k : Cluster S) where
  -- `secretDataFromRef`; no secret is the empty map.
  unfoldable pub secret_data_from_ref : Option SecretReference → ClusterExec S StringMap
  unfolding request trim_space
  secret_data_from_ref none = pure []
  secret_data_from_ref (some ref) =
      if trim_space ref.name == "" then pure [] else request k (get_secret ref.namespace ref.name)

  -- `secretDataForOperation`
  unfoldable pub secret_data_for_operation :
      StringMap → (operation : String) → TemplateNames → ClusterExec S StringMap
  unfolding secret_data_from_ref secret_ref_for_operation
  secret_data_for_operation params operation names =
      secret_data_from_ref (secret_ref_for_operation params operation names)
