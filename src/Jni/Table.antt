-- ===== src/Jni/Table.antt =====
-- The table that nativeInit registers (opencore/src/main/cpp/opencore_jni.cpp), against the native
-- methods that Java declares (opencore/src/main/java/penguin/opencore/sdk/Coredump.java).
use Prim.Native.String.{String}
use open_core_sdk.Prelude.{ℕ, ◌≡◌, refl, ◌&&◌, List, [], ◌∷◌, ◌++◌, eq_bytes, if◌then◌else◌}
use open_core_sdk.Opencore.Filter.{codes}

-- The functions of the table.
pub data NativeMethod : Type 0 where
  version_fn : NativeMethod
  enable_fn : NativeMethod
  disable_fn : NativeMethod
  coredump_fn : NativeMethod
  set_dir_fn : NativeMethod
  set_flag_fn : NativeMethod
  set_timeout_fn : NativeMethod
  set_filter_fn : NativeMethod
  is_enabled_fn : NativeMethod
  get_dir_fn : NativeMethod
  get_flag_fn : NativeMethod
  get_timeout_fn : NativeMethod
  get_filter_fn : NativeMethod

-- `JNINativeMethod`.
pub record JniNativeMethod : Type 0 where
  pub name : String
  pub signature : String
  pub fn_ptr : NativeMethod

-- `gMethods`.
abbrev pub g_methods : List JniNativeMethod
g_methods =
    record { name = "nativeVersion"; signature = "()Ljava/lang/String;"; fn_ptr = version_fn }
    ∷ record { name = "nativeEnable"; signature = "()Z"; fn_ptr = enable_fn }
    ∷ record { name = "nativeDisable"; signature = "()Z"; fn_ptr = disable_fn }
    ∷ record { name = "nativeCoredump"; signature = "(ILjava/lang/String;)Z"; fn_ptr = coredump_fn }
    ∷ record { name = "nativeSetDir"; signature = "(Ljava/lang/String;)V"; fn_ptr = set_dir_fn }
    ∷ record { name = "nativeSetFlag"; signature = "(I)V"; fn_ptr = set_flag_fn }
    ∷ record { name = "nativeSetTimeout"; signature = "(I)V"; fn_ptr = set_timeout_fn }
    ∷ record { name = "nativeSetFilter"; signature = "(I)V"; fn_ptr = set_filter_fn }
    ∷ record { name = "nativeIsEnabled"; signature = "()Z"; fn_ptr = is_enabled_fn }
    ∷ record { name = "nativeGetDir"; signature = "()Ljava/lang/String;"; fn_ptr = get_dir_fn }
    ∷ record { name = "nativeGetFlag"; signature = "()I"; fn_ptr = get_flag_fn }
    ∷ record { name = "nativeGetTimeout"; signature = "()I"; fn_ptr = get_timeout_fn }
    ∷ record { name = "nativeGetFilter"; signature = "()I"; fn_ptr = get_filter_fn }
    ∷ []

-- The types in the declarations, and their descriptors.
pub data JavaType : Type 0 where
  void : JavaType
  boolean : JavaType
  int : JavaType
  string : JavaType

abbrev descriptor : JavaType → List ℕ
descriptor void = codes "V"
descriptor boolean = codes "Z"
descriptor int = codes "I"
descriptor string = codes "Ljava/lang/String;"

abbrev descriptors : List JavaType → List ℕ
descriptors [] = []
descriptors (t ∷ ts) = descriptor t ++ descriptors ts

-- The Java method that each function is for, as Coredump.java declares it.
abbrev pub declared : NativeMethod → String × List JavaType × JavaType
declared version_fn = ("nativeVersion", [], string)
declared enable_fn = ("nativeEnable", [], boolean)
declared disable_fn = ("nativeDisable", [], boolean)
declared coredump_fn = ("nativeCoredump", int ∷ string ∷ [], boolean)
declared set_dir_fn = ("nativeSetDir", string ∷ [], void)
declared set_flag_fn = ("nativeSetFlag", int ∷ [], void)
declared set_timeout_fn = ("nativeSetTimeout", int ∷ [], void)
declared set_filter_fn = ("nativeSetFilter", int ∷ [], void)
declared is_enabled_fn = ("nativeIsEnabled", [], boolean)
declared get_dir_fn = ("nativeGetDir", [], string)
declared get_flag_fn = ("nativeGetFlag", [], int)
declared get_timeout_fn = ("nativeGetTimeout", [], int)
declared get_filter_fn = ("nativeGetFilter", [], int)

abbrev signature_of : List JavaType → JavaType → List ℕ
signature_of params result = codes "(" ++ (descriptors params ++ (codes ")" ++ descriptor result))

-- The functions that a table registers for a name and a signature.
abbrev pub registered : List ℕ → List ℕ → List JniNativeMethod → List NativeMethod
registered name signature [] = []
registered name signature (e ∷ es) =
    if eq_bytes name (codes e.name) && eq_bytes signature (codes e.signature)
    then e.fn_ptr ∷ registered name signature es
    else registered name signature es

-- For each native method that Coredump.java declares, but for nativeInit, the table has one entry with
-- its name and the signature of its types, and that entry holds the function for it.
pub registered-declared :
    (method : NativeMethod)
    → let (name, params, result) = declared method in
      registered (codes name) (signature_of params result) g_methods ≡ method ∷ []
unfolding eq_bytes
registered-declared version_fn = refl
registered-declared enable_fn = refl
registered-declared disable_fn = refl
registered-declared coredump_fn = refl
registered-declared set_dir_fn = refl
registered-declared set_flag_fn = refl
registered-declared set_timeout_fn = refl
registered-declared set_filter_fn = refl
registered-declared is_enabled_fn = refl
registered-declared get_dir_fn = refl
registered-declared get_flag_fn = refl
registered-declared get_timeout_fn = refl
registered-declared get_filter_fn = refl
