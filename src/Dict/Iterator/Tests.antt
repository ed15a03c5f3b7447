-- ===== src/Dict/Iterator/Tests.antt =====
-- The theorem on the iterators of src/dict.c at a dict of five entries that is being rehashed.
use jmeter_on_k8s.Prelude.{ℕ, ◌≡◌, some, [], ◌∷◌, arith}
use jmeter_on_k8s.Dict.{Dict, is_rehashing}
use jmeter_on_k8s.Dict.Iterator.{visit, dict_get_safe_iterator}
use jmeter_on_k8s.Dict.Iterator.Visits.{visit-dict_get_safe_iterator}
use jmeter_on_k8s.Dict.Tests.{numbers, five, five-IsValid}

visit-dict_get_safe_iterator_example :
    (d' : Dict ℕ ℕ) × (visit (λ d. 7) 20 10 five (dict_get_safe_iterator 0)
      ≡ some (
        record { key = 1; val = 10 }
            ∷ record { key = 9; val = 90 }
            ∷ record { key = 5; val = 50 }
            ∷ record { key = 6; val = 60 }
            ∷ record { key = 4; val = 40 }
            ∷ [],
        d',
      ))
    × (d'.ht0 ≡ five.ht0)
    × (d'.ht1 ≡ five.ht1)
    × (is_rehashing d' ≡ is_rehashing five)
visit-dict_get_safe_iterator_example =
    visit-dict_get_safe_iterator numbers (λ d. 7) 0 20 10 five five-IsValid (omega arith)
      (omega arith)
