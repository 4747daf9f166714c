-- ===== src/Tools.antt =====
-- packages/tools/src/index.ts: the registry of tools. A descriptor's input schema, which the registry
-- only passes on, is left out.
use Prim.Native.String.{◌++◌ as ◌+s◌}
use vibe_go.Base.{String, Bool, true, false, ◌||◌, Option, List, [], ◌∷◌, ◌=s◌, if◌then◌else◌, map}
use vibe_go.Base.Keyed.{find, has, put}

pub data ToolRisk : Type 0 where
  read write destructive network : ToolRisk

pub data ToolSandboxMode : Type 0 where
  read_only workspace_write external_sandbox danger_full_access : ToolSandboxMode

pub record ToolDescriptor : Type 0 where
  pub id : String
  pub version : String
  pub risk : ToolRisk
  pub summary : String
  pub supported_sandbox_modes : List ToolSandboxMode
  pub always_prompt : Option Bool

pub record PublicToolDescriptor : Type 0 where
  pub id : String
  pub version : String
  pub risk : ToolRisk
  pub summary : String
  pub supported_sandbox_modes : List ToolSandboxMode

-- The map `descriptors`.
abbrev pub Registry : Type 0
Registry = List ToolDescriptor

pub data RegistrationError : Type 0 where
  missing_text no_sandbox_modes already_registered : RegistrationError

pub data Registered : Type 0 where
  registered : Registry → Registered
  refused : RegistrationError → Registered

-- `${id}\u0000${version}`
abbrev pub key : String → String → String
key id version = id +s ("\0" +s version)

abbrev pub descriptor_key : ToolDescriptor → String
descriptor_key d = key d.id d.version

abbrev is_empty : List ToolSandboxMode → Bool
is_empty [] = true
is_empty (m ∷ ms) = false

pub register : ToolDescriptor → Registry → Registered
register d r =
    if (d.id =s "") || (d.version =s "") || (d.summary =s "")
    then refused missing_text
    else if is_empty d.supported_sandbox_modes
    then refused no_sandbox_modes
    else if has descriptor_key (descriptor_key d) r
    then refused already_registered
    else registered (put descriptor_key d r)

unfoldable pub get : String → String → Registry → Option ToolDescriptor
get id version r = find descriptor_key (key id version) r

public : ToolDescriptor → PublicToolDescriptor
public d = record {
  id = d.id;
  version = d.version;
  risk = d.risk;
  summary = d.summary;
  supported_sandbox_modes = d.supported_sandbox_modes;
}

pub list : Registry → List PublicToolDescriptor
unfolding public
list r = map public r

pub is_registered : String → String → Registry → Bool
is_registered id version r = has descriptor_key (key id version) r
