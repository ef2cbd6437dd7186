-- ===== src/Seeds/Upgrade.antt =====
-- The rolling upgrade of engine/management/commands/seed_demo.py.
use nutanix_hack.Prelude.Int.{pos}
use nutanix_hack.Json.{Value, num, str, arr, obj, nil, cons, end, field}

abbrev pub rolling_upgrade : Value
rolling_upgrade = obj (
    field "name" (str "rolling_cluster_upgrade") (
      field "steps"
        (arr (
          cons
            (obj (
              field "id" (str "preflight") (
                field "type" (str "http") (
                  field "config"
                    (obj (
                      field "method" (str "GET")
                        (field "url" (str "http://nodes:9000/nodes/{{ input.node }}/health") end)))
                    (field "retry"
                      (obj (
                        field "max" (num (pos 3)) (
                          field "backoff" (str "exponential")
                            (field "base_ms" (num (pos 300)) end))))
                      end)))))
            (cons
              (obj (
                field "id" (str "drain") (
                  field "type" (str "http") (
                    field "needs" (arr (cons (str "preflight") nil)) (
                      field "config"
                        (obj (
                          field "method" (str "POST") (
                            field "url" (str "http://nodes:9000/nodes/{{ input.node }}/drain")
                              end)))
                        (field "compensate"
                          (obj (
                            field "type" (str "http") (
                              field "config"
                                (obj (
                                  field "method" (str "POST") (
                                    field "url"
                                      (str "http://nodes:9000/nodes/{{ input.node }}/undrain")
                                      end)))
                                end)))
                          end))))))
              (cons
                (obj (
                  field "id" (str "upgrade") (
                    field "type" (str "http") (
                      field "needs" (arr (cons (str "drain") nil)) (
                        field "config"
                          (obj (
                            field "method" (str "POST") (
                              field "url" (str "http://nodes:9000/nodes/{{ input.node }}/upgrade")
                                end)))
                          (field "compensate"
                            (obj (
                              field "type" (str "http") (
                                field "config"
                                  (obj (
                                    field "method" (str "POST") (
                                      field "url"
                                        (str "http://nodes:9000/nodes/{{ input.node }}/rollback")
                                        end)))
                                  end)))
                            end))))))
                (cons
                  (obj (
                    field "id" (str "verify") (
                      field "type" (str "http") (
                        field "needs" (arr (cons (str "upgrade") nil)) (
                          field "config"
                            (obj (
                              field "method" (str "GET") (
                                field "url" (str "http://nodes:9000/nodes/{{ input.node }}/health")
                                  end)))
                            (field "on_error" (str "compensate") end))))))
                  (cons
                    (obj (
                      field "id" (str "return_to_service") (
                        field "type" (str "http") (
                          field "needs" (arr (cons (str "verify") nil)) (
                            field "config"
                              (obj (
                                field "method" (str "POST") (
                                  field "url"
                                    (str "http://nodes:9000/nodes/{{ input.node }}/undrain") end)))
                              end)))))
                    nil))))))
        end))
