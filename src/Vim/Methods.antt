-- ===== src/Vim/Methods.antt =====
-- The managed type that `_register_nfc_types` (openvixdisklib/nfc_auth.py) hands to pyVmomi.
-- It has no properties, and its methods have no privileges and no faults.
use open_vix_disk_lib.Prelude.{Bool, true, false, codes, List, [], ◌∷◌}
use open_vix_disk_lib.Text.{Text}

-- A parameter; `optional` is the flag `F_OPTIONAL`.
record Parameter : Type 0 where
  name : Text
  kind : Text
  since : Text
  optional : Bool

-- A method with its names in vmodl and in the WSDL, and the type of its result.
record Method : Type 0 where
  name : Text
  wsdl_name : Text
  since : Text
  parameters : List Parameter
  returns : Text

record ManagedType : Type 0 where
  name : Text
  wsdl_name : Text
  parent : Text
  since : Text
  methods : List Method

abbrev version1 : Text
version1 = codes "vim.version.version1"

abbrev parameter : Text → Text → Bool → Parameter
parameter name kind optional = record {
  name = name;
  kind = kind;
  since = version1;
  optional = optional;
}

abbrev vm : Parameter
vm = parameter (codes "vm") (codes "vim.VirtualMachine") false

abbrev disk_device_key : Parameter
disk_device_key = parameter (codes "diskDeviceKey") (codes "int") false

abbrev host_for_access : Bool → Parameter
host_for_access optional = parameter (codes "hostForAccess") (codes "vim.HostSystem") optional

abbrev method : Text → Text → List Parameter → Text → Method
method name wsdl_name parameters returns = record {
  name = name;
  wsdl_name = wsdl_name;
  since = version1;
  parameters = parameters;
  returns = returns;
}

abbrev nfc_methods : List Method
nfc_methods =
    method (codes "getVmFiles") (codes "NfcGetVmFiles") (vm ∷ []) (codes "vim.HostServiceTicket")
    ∷ method (codes "randomAccessOpen") (codes "NfcRandomAccessOpenDisk")
        (vm ∷ disk_device_key ∷ host_for_access true ∷ []) (codes "vim.HostServiceTicket")
    ∷ method (codes "randomAccessOpenReadonly") (codes "NfcRandomAccessOpenReadonly")
        (vm ∷ disk_device_key ∷ host_for_access true ∷ []) (codes "vim.HostServiceTicket")
    ∷ method (codes "getServerNfcLibVersion") (codes "NfcGetServerNfcLibVersion")
        (host_for_access false ∷ []) (codes "int")
    ∷ []

abbrev nfc_type : ManagedType
nfc_type = record {
  name = codes "vim.NfcService";
  wsdl_name = codes "NfcService";
  parent = codes "vmodl.ManagedObject";
  since = version1;
  methods = nfc_methods;
}

-- `NFC_SERVICE_MOID`
abbrev pub nfc_service_moid : Text
nfc_service_moid = codes "nfcService"
