-- ===== src/Marshal/Conditions.antt =====
-- api_structs.go: the json tags of rules, which say when a setting or a constraint applies.
use hawk_apiserver.Prelude.{◌++◌}
use hawk_apiserver.Text.{codes}
use hawk_apiserver.Json.{
  Json, Items, object, text, text_omitempty, items, items_omitempty, list_omitempty,
  pointer_omitempty,
}
use hawk_apiserver.Cib.{
  Expression, Duration, DateSpec, DateExpression, Rule, Lifetime, rule, Rules, nil, cons,
}

unfoldable pub expression_json : Expression → Json
expression_json r = object (
    text (codes "id") r.id
    ++ text (codes "attribute") r.attribute
    ++ text (codes "operation") r.operation
    ++ text_omitempty (codes "value") r.value
    ++ text_omitempty (codes "type") r.type
    ++ text_omitempty (codes "value-source") r.value_source)

unfoldable pub duration_json : Duration → Json
duration_json r = object (
    text (codes "id") r.id
    ++ text_omitempty (codes "hours") r.hours
    ++ text_omitempty (codes "monthdays") r.monthdays
    ++ text_omitempty (codes "weekdays") r.weekdays
    ++ text_omitempty (codes "yearsdays") r.yearsdays
    ++ text_omitempty (codes "months") r.months
    ++ text_omitempty (codes "weeks") r.weeks
    ++ text_omitempty (codes "years") r.years
    ++ text_omitempty (codes "weekyears") r.weekyears
    ++ text_omitempty (codes "moon") r.moon)

unfoldable pub date_spec_json : DateSpec → Json
date_spec_json r = object (
    text (codes "id") r.id
    ++ text_omitempty (codes "hours") r.hours
    ++ text_omitempty (codes "monthdays") r.monthdays
    ++ text_omitempty (codes "weekdays") r.weekdays
    ++ text_omitempty (codes "yearsdays") r.yearsdays
    ++ text_omitempty (codes "months") r.months
    ++ text_omitempty (codes "weeks") r.weeks
    ++ text_omitempty (codes "years") r.years
    ++ text_omitempty (codes "weekyears") r.weekyears
    ++ text_omitempty (codes "moon") r.moon)

unfoldable pub date_expression_json : DateExpression → Json
date_expression_json r = object (
    text (codes "id") r.id
    ++ text_omitempty (codes "operation") r.operation
    ++ text_omitempty (codes "start") r.start
    ++ text_omitempty (codes "end") r.end
    ++ pointer_omitempty (codes "duration") duration_json r.duration
    ++ pointer_omitempty (codes "date_spec") date_spec_json r.date_spec)

unfoldable mutual
  pub rule_json : Rule → Json
  rule_json
        (rule id_ref id score score_attribute boolean_op role expression date_expression rules) =
      object (
        text_omitempty (codes "id-ref") id_ref
        ++ text_omitempty (codes "id") id
        ++ text_omitempty (codes "score") score
        ++ text_omitempty (codes "score-attribute") score_attribute
        ++ text_omitempty (codes "boolean-op") boolean_op
        ++ text_omitempty (codes "role") role
        ++ list_omitempty (codes "expression") expression_json expression
        ++ list_omitempty (codes "date_expression") date_expression_json date_expression
        ++ items_omitempty (codes "rule") (rules_json rules))

  pub rules_json : Rules → Items
  rules_json nil = Items.nil
  rules_json (cons r rs) = Items.cons (rule_json r) (rules_json rs)

unfoldable pub lifetime_json : Lifetime → Json
lifetime_json r = object (items (codes "rule") (rules_json r.rule))
