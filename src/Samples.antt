-- ===== src/Samples.antt =====
-- What the tests share: a stand-in for the calls of other code, with hashes that change nothing and
-- bcrypt that takes every password.
use cache_22_server.Prelude.{true, some}
use cache_22_server.External.{External}

abbrev pub plain : External
plain = record {
  sha1 = λ s. s;
  sha256 = λ s. s;
  hash_password = λ p s. some p;
  compare_password = λ h p. true;
  sorted_titles = λ l. l;
}
