-- ===== src/Estados/Tests.antt =====
-- YAMA/src/funcionesYAMA.c and YAMA/src/server.c: a job with two blocks in one node.
use opsys_17b.Base.{ℕ, suc, ◌≡◌, refl, true, false, none, some, List, [], ◌∷◌, get_elem?, ◌==◌}
use opsys_17b.Serial.{same_bytes}
use opsys_17b.YFile.{Block}
use opsys_17b.Base.{pos}
use opsys_17b.Carga.{
  CargaNodo, actualizar_carga_del_nodo, posicion_carga_nodo, quitar, existe_el_job,
  eliminar_carga_job,
}
use opsys_17b.Estados.{
  Estado, Tabla, en_proceso, error, finalizado_ok, transformacion, reduccion_local,
  reduccion_global, agregar_a_tabla_estado, indice, filtrar, todos, es_tarea, cambiar,
  actualizo_tabla_estado, verifico_finalizacion_transformacion, verifico_finalizacion_rl,
  busco_archivos_temporales, busco_nodos, busco_nodo_encargado, buscar_id_job_para_master_caido,
  nodo_con_copia_is_active, nodo_esta_en_la_copia, quitar_cargas,
  eliminar_cargas_reducciones_locales, finalizar_job_global_en_tabla_estado,
}
use opsys_17b.Estados.Pendientes.{pendientes, actualizo_tabla_estado_lem}

abbrev nodo_a : List ℕ
nodo_a = b'A' ∷ []

abbrev nodo_b : List ℕ
nodo_b = b'B' ∷ []

abbrev archivo : List ℕ
archivo = b't' ∷ []

abbrev entrada : List ℕ → ℕ → List ℕ → List ℕ → Estado
entrada nodo bloque etapa estado = record {
  job = 1;
  master = 7;
  nodo = nodo;
  block = bloque;
  etapa = etapa;
  archivo_temporal = archivo;
  estado = estado;
}

abbrev tabla : Tabla
tabla =
    entrada nodo_a 3 transformacion finalizado_ok ∷ entrada nodo_a 4 transformacion en_proceso ∷ []

tabla_run :
    (agregar_a_tabla_estado
        (entrada nodo_a 3 transformacion finalizado_ok ∷ [])
        1
        nodo_a
        7
        4
        transformacion
        archivo
        en_proceso
      ≡ tabla)
    × (verifico_finalizacion_transformacion same_bytes nodo_a 7 1 tabla ≡ false)
    × (verifico_finalizacion_transformacion same_bytes nodo_b 7 1 tabla ≡ true)
    × (verifico_finalizacion_rl same_bytes 1 7 tabla ≡ false)
    × (busco_archivos_temporales same_bytes nodo_a 7 1 tabla ≡ archivo ∷ [])
    × (busco_nodos same_bytes 7 1 tabla ≡ [])
    × (busco_nodo_encargado same_bytes 1 tabla ≡ none)
    × (buscar_id_job_para_master_caido same_bytes 7 tabla ≡ some 1)
    × (buscar_id_job_para_master_caido same_bytes 8 tabla ≡ none)
    × (actualizo_tabla_estado same_bytes nodo_b 3 7 1 error tabla ≡ none)
unfolding agregar_a_tabla_estado verifico_finalizacion_transformacion verifico_finalizacion_rl
    busco_archivos_temporales busco_nodos busco_nodo_encargado buscar_id_job_para_master_caido
    actualizo_tabla_estado indice filtrar todos cambiar
tabla_run = (refl, refl, refl, refl, refl, refl, refl, refl, refl, refl)

abbrev bloque_ab : Block
bloque_ab = record {
  index = pos 0;
  size = 9;
  copy0 = record { blockno = pos 3; node = some nodo_a };
  copy1 = record { blockno = pos 5; node = some nodo_b };
}

copia_run :
    (nodo_esta_en_la_copia same_bytes (nodo_b ∷ []) bloque_ab 0 nodo_a ≡ true)
    × (nodo_esta_en_la_copia same_bytes (nodo_b ∷ []) bloque_ab 1 nodo_b ≡ false)
unfolding nodo_esta_en_la_copia nodo_con_copia_is_active
copia_run = (refl, refl)

abbrev carga : List ℕ → ℕ → CargaNodo
carga nodo n = record {
  nodo = nodo;
  carga_actual = n;
  carga_historica = 9;
  carga_por_job = record { job = 1; carga_del_job = n } ∷ [];
}

abbrev descargado : List ℕ → CargaNodo
descargado nodo = record { nodo = nodo; carga_actual = 0; carga_historica = 9; carga_por_job = [] }

finalizar_run :
    finalizar_job_global_en_tabla_estado same_bytes 7 1 finalizado_ok
      (entrada nodo_b 8 reduccion_local finalizado_ok
        ∷ entrada nodo_a 9 reduccion_global en_proceso
        ∷ [])
      (carga nodo_a 2 ∷ carga nodo_b 4 ∷ [])
    ≡ some (
      entrada nodo_b 8 reduccion_local finalizado_ok
          ∷ entrada nodo_a 9 reduccion_global finalizado_ok
          ∷ [],
      descargado nodo_a ∷ descargado nodo_b ∷ [],
    )
unfolding finalizar_job_global_en_tabla_estado indice eliminar_cargas_reducciones_locales
    quitar_cargas filtrar actualizar_carga_del_nodo posicion_carga_nodo quitar existe_el_job
    eliminar_carga_job
finalizar_run = refl

segunda : indice (λ e. es_tarea same_bytes nodo_a 4 7 1 e) tabla ≡ some 1
unfolding indice
segunda = refl

actualizo_tabla_estado_lem_example :
    (tabla' : Tabla) × (actualizo_tabla_estado same_bytes nodo_a 4 7 1 finalizado_ok tabla
      ≡ some tabla')
    × (suc (pendientes same_bytes nodo_a 7 1 tabla') ≡ pendientes same_bytes nodo_a 7 1 tabla)
    × (verifico_finalizacion_transformacion same_bytes nodo_a 7 1 tabla'
        ≡ (pendientes same_bytes nodo_a 7 1 tabla == 1))
    × ((j : ℕ) → (1 == j) ≡ false → get_elem? tabla' j ≡ get_elem? tabla j)
actualizo_tabla_estado_lem_example =
    actualizo_tabla_estado_lem same_bytes nodo_a 7 1 4 1
      (entrada nodo_a 4 transformacion en_proceso) tabla refl segunda refl refl
