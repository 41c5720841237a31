-- ===== src/Cib/Conditions.antt =====
-- api_structs.go: rules, which say when a setting or a constraint applies.
use hawk_apiserver.Prelude.{List, Option}
use hawk_apiserver.Text.{Text}

pub record Expression : Type 0 where
  pub id : Text
  pub attribute : Text
  pub operation : Text
  pub value : Text
  pub type : Text
  pub value_source : Text

pub record Duration : Type 0 where
  pub id : Text
  pub hours : Text
  pub monthdays : Text
  pub weekdays : Text
  pub yearsdays : Text
  pub months : Text
  pub weeks : Text
  pub years : Text
  pub weekyears : Text
  pub moon : Text

pub record DateSpec : Type 0 where
  pub id : Text
  pub hours : Text
  pub monthdays : Text
  pub weekdays : Text
  pub yearsdays : Text
  pub months : Text
  pub weeks : Text
  pub years : Text
  pub weekyears : Text
  pub moon : Text

pub record DateExpression : Type 0 where
  pub id : Text
  pub operation : Text
  pub start : Text
  pub end : Text
  pub duration : Option Duration
  pub date_spec : Option DateSpec

-- A rule may hold rules.
mutual
  pub data Rule : Type 0 where
    rule :
        (id_ref : Text) (id : Text) (score : Text) (score_attribute : Text) (boolean_op : Text)
        (role : Text) (expression : List Expression) (date_expression : List DateExpression)
        (rules : Rules)
        → Rule

  pub data Rules : Type 0 where
    nil : Rules
    cons : Rule → Rules → Rules

pub record Lifetime : Type 0 where
  pub rule : Rules
