-- ===== src/Tests/Jobspec.antt =====
-- A small document.
use resource_query.Prelude.{
  pos, ◌≡◌, refl, ◌≢◌, String, [], ◌∷◌, Option, none, some, arith, string_key,
}
use resource_query.Jobspec.{node, nil, unspecified, Jobspec}
use resource_query.Jobspec.Result.{parsed, thrown, too_deep, ◌>>=◌}
use resource_query.Jobspec.Yaml.{
  field, Node, null, scalar, sequence, mapping, no_items, item, no_pairs, pair, Conversions, depth,
}
use resource_query.Jobspec.Parse.{parse_jobspec}
use resource_query.Jobspec.Parse.Valid.{ValidJobspec, parse_jobspec-Valid}
use resource_query.Jobspec.Parse.Depth.{parse_jobspec-ends}

abbrev text : Node → Option String
text (scalar s) = some s
text _ = none

-- Every number of the document is 1.
abbrev ones : Conversions
ones = record {
  as_unsigned = λ n. some 1;
  as_int = λ n. some (pos 1);
  as_char = λ n. some b'+';
  as_string = text;
  as_strings = λ n. some [];
}

abbrev core_document : Node
core_document = mapping (
    pair (scalar "version") (scalar "1") (
      pair (scalar "resources")
        (sequence (
          item
            (mapping
              (pair (scalar "type") (scalar "core") (pair (scalar "count") (scalar "1") no_pairs)))
            no_items))
        (pair (scalar "tasks") (sequence no_items) (pair (scalar "attributes") null no_pairs))))

abbrev core_jobspec : Jobspec
core_jobspec = record {
  version = 1;
  resources =
      node
        (record {
          type = "core";
          count = record { min = 1; max = 1; oper = b'+'; operand = pos 1 };
          unit = "";
          label = "";
          id = "";
          exclusive = unspecified;
          user_data = [];
        })
        nil
      ∷ [];
  tasks = [];
  attributes = [];
}

core_document_parses : parse_jobspec ones 4 core_document ≡ parsed core_jobspec
unfolding parse_jobspec ◌>>=◌ field
core_document_parses = refl

parse_jobspec-Valid_example : ValidJobspec core_jobspec
parse_jobspec-Valid_example =
    parse_jobspec-Valid ones 4 core_document core_jobspec core_document_parses

parse_jobspec-ends_example : parse_jobspec ones 4 core_document ≢ thrown too_deep
unfolding depth
parse_jobspec-ends_example = parse_jobspec-ends ones 4 core_document (omega arith)
