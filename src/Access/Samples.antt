-- ===== src/Access/Samples.antt =====
-- A cluster for the tests, where a selector is the namespaces it names, and a namespace has no label
-- but its name.
use mailout_operator.Base.{List, some}
use mailout_operator.Text.{Bytes, has}
use mailout_operator.Access.{Labelling}

abbrev pub sample_cluster : Labelling (List Bytes) Bytes
sample_cluster = record {
  as_selector = λ namespaces. some (λ name. has name namespaces);
  namespace_labels = λ name. some name;
}
