-- ===== src/Workflow/Types.antt =====
-- pkg/workflow/types.go. A value of type `any` is a tree; `scalar` stands for every value that is
-- no string, array or object, since the package passes such a value on without looking at it.
-- A nil slice is the empty list; a nil map is `none`, because Dsl.normalize replaces it.
use ai_inference_managed_by.Base.{String, Bool, List, Option, none, some}
use ai_inference_managed_by.Base.Int.{ℤ}
use ai_inference_managed_by.Base.Map.{Map}

pub data Scalar : Type 0 where
  null : Scalar
  boolean : Bool → Scalar
  int : ℤ → Scalar

mutual
  pub data Value : Type 0 where
    scalar : Scalar → Value
    text : String → Value
    array : Items → Value
    object : Fields → Value

  pub data Items : Type 0 where
    nil : Items
    cons : Value → Items → Items

  pub data Fields : Type 0 where
    end : Fields
    field : String → Value → Fields → Fields

-- What reading a possibly nil map finds.
abbrev pub fields_of : Option Fields → Fields
fields_of none = end
fields_of (some m) = m

pub data ExecutionStatus : Type 0 where
  pending running completed failed cancelled : ExecutionStatus

pub record RetryConfig : Type 0 where
  pub max_attempts : ℤ
  pub delay_seconds : ℤ

pub record WorkflowStep : Type 0 where
  pub id : String
  pub type : String
  pub input : Option Fields
  pub depends_on : List String
  pub on_failure : String
  pub retry : Option RetryConfig

pub record WorkflowDef : Type 0 where
  pub name : String
  pub description : String
  pub config : Option Fields
  pub steps : List WorkflowStep
  pub output : Option Fields

pub record ExecutionContext : Type 0 where
  pub input : Fields
  pub config : Fields
  pub steps : Map Fields
