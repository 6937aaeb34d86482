-- ===== src/Carga/Tests.antt =====
-- YAMA/src/funcionesYAMA.c: two nodes with the loads of two jobs.
use opsys_17b.Base.{◌≡◌, refl, some, none, List, [], ◌∷◌, All, set}
use opsys_17b.Serial.{same_bytes}
use opsys_17b.Carga.{
  CargaNodo, actualizar_carga_del_nodo, posicion_carga_nodo, quitar, aumentar, sumar, existe_el_job,
  eliminar_carga_job, carga_de_nodo, obtener_historico,
}
use opsys_17b.Carga.Nodo.{IsCarga, IsCambio, actualizar_carga_del_nodo_lem}

abbrev carga_a : CargaNodo
carga_a = record {
  nodo = 65 ∷ [];
  carga_actual = 5;
  carga_historica = 9;
  carga_por_job =
      record { job = 1; carga_del_job = 2 } ∷ record { job = 4; carga_del_job = 3 } ∷ [];
}

abbrev carga_b : CargaNodo
carga_b = record { nodo = 66 ∷ []; carga_actual = 0; carga_historica = 7; carga_por_job = [] }

abbrev cargas : List CargaNodo
cargas = carga_a ∷ carga_b ∷ []

cargas-IsCarga : All IsCarga cargas
cargas-IsCarga = (
  record { unicos = (refl, (refl, tt)); cuenta = refl },
  (record { unicos = tt; cuenta = refl }, tt),
)

found_a : posicion_carga_nodo same_bytes cargas (65 ∷ []) ≡ some 0
unfolding posicion_carga_nodo
found_a = refl

-- The load of the job 1 is taken from the node A.
quitar_run :
    actualizar_carga_del_nodo same_bytes cargas (65 ∷ []) 1 0 1
    ≡ some (
        record {
          nodo = 65 ∷ [];
          carga_actual = 3;
          carga_historica = 9;
          carga_por_job = record { job = 4; carga_del_job = 3 } ∷ [];
        }
        ∷ carga_b
        ∷ [])
unfolding actualizar_carga_del_nodo posicion_carga_nodo quitar existe_el_job eliminar_carga_job
quitar_run = refl

-- A new job on the node B.
aumentar_run :
    actualizar_carga_del_nodo same_bytes cargas (66 ∷ []) 6 1 2
    ≡ some (
        carga_a
        ∷ record {
          nodo = 66 ∷ [];
          carga_actual = 2;
          carga_historica = 9;
          carga_por_job = record { job = 6; carga_del_job = 2 } ∷ [];
        }
        ∷ [])
unfolding actualizar_carga_del_nodo posicion_carga_nodo aumentar sumar existe_el_job
aumentar_run = refl

historico_run :
    (obtener_historico same_bytes cargas (66 ∷ []) ≡ some 7)
    × (obtener_historico same_bytes cargas (67 ∷ []) ≡ none)
unfolding obtener_historico carga_de_nodo posicion_carga_nodo
historico_run = (refl, refl)

actualizar_carga_del_nodo_lem_example :
    (n' : CargaNodo) × (actualizar_carga_del_nodo same_bytes cargas (65 ∷ []) 4 1 6
      ≡ some (set cargas 0 n'))
    × IsCambio 1 4 6 carga_a n'
    × All IsCarga (set cargas 0 n')
actualizar_carga_del_nodo_lem_example =
    actualizar_carga_del_nodo_lem same_bytes cargas (65 ∷ []) 4 1 6 0 carga_a cargas-IsCarga found_a
      refl
