-- ===== src/Seeds/Patience.antt =====
-- The workflows of engine/management/commands/seed_demo.py that take time: slow, flaky, waiting,
-- approved.
use nutanix_hack.Prelude.{true}
use nutanix_hack.Prelude.Int.{pos}
use nutanix_hack.Json.{Value, bool, num, str, arr, obj, nil, cons, end, field}

abbrev pub slow : Value
slow = obj (
    field "name" (str "demo_slow") (
      field "steps"
        (arr (
          cons
            (obj (
              field "id" (str "prepare") (
                field "type" (str "noop") (
                  field "config" (obj (field "output" (obj (field "ready" (bool true) end)) end))
                    end))))
            (cons
              (obj (
                field "id" (str "long_task") (
                  field "type" (str "shell") (
                    field "needs" (arr (cons (str "prepare") nil)) (
                      field "config"
                        (obj (
                          field "cmd"
                            (str
                              "python -c \"import time; [time.sleep(1) for _ in range(25)]; print('long task finished')\"")
                            (field "timeout_s" (num (pos 120)) end)))
                        end)))))
              (cons
                (obj (
                  field "id" (str "finish") (
                    field "type" (str "noop") (
                      field "needs" (arr (cons (str "long_task") nil)) (
                        field "config"
                          (obj (field "output" (obj (field "done" (bool true) end)) end)) end)))))
                nil))))
        end))

abbrev pub flaky : Value
flaky = obj (
    field "name" (str "demo_flaky") (
      field "steps"
        (arr (
          cons
            (obj (
              field "id" (str "setup") (
                field "type" (str "noop") (
                  field "config" (obj (field "output" (obj (field "ready" (bool true) end)) end))
                    end))))
            (cons
              (obj (
                field "id" (str "unreliable") (
                  field "type" (str "shell") (
                    field "needs" (arr (cons (str "setup") nil)) (
                      field "config"
                        (obj (
                          field "cmd"
                            (str
                              "python -c \"import random,sys; sys.exit(0 if random.random() < 0.34 else 1)\"")
                            end))
                        (field "retry"
                          (obj (
                            field "max" (num (pos 6)) (
                              field "backoff" (str "exponential") (
                                field "base_ms" (num (pos 400))
                                  (field "max_ms" (num (pos 5000)) end)))))
                          end))))))
              (cons
                (obj (
                  field "id" (str "report") (
                    field "type" (str "noop") (
                      field "needs" (arr (cons (str "unreliable") nil)) (
                        field "config"
                          (obj (field "output" (obj (field "reported" (bool true) end)) end))
                          end)))))
                nil))))
        end))

abbrev pub waiting : Value
waiting = obj (
    field "name" (str "demo_wait") (
      field "steps"
        (arr (
          cons
            (obj (
              field "id" (str "before") (
                field "type" (str "noop") (
                  field "config" (obj (field "output" (obj (field "phase" (str "before") end)) end))
                    end))))
            (cons
              (obj (
                field "id" (str "settle") (
                  field "type" (str "wait") (
                    field "needs" (arr (cons (str "before") nil))
                      (field "config" (obj (field "duration_s" (num (pos 45)) end)) end)))))
              (cons
                (obj (
                  field "id" (str "after") (
                    field "type" (str "shell") (
                      field "needs" (arr (cons (str "settle") nil)) (
                        field "config"
                          (obj
                            (field "cmd" (str "python -c \"print('resumed after the wait')\"") end))
                          end)))))
                nil))))
        end))

abbrev pub approval : Value
approval = obj (
    field "name" (str "demo_approval") (
      field "steps"
        (arr (
          cons
            (obj (
              field "id" (str "prepare") (
                field "type" (str "noop") (
                  field "config" (obj (field "output" (obj (field "ready" (bool true) end)) end))
                    end))))
            (cons
              (obj (
                field "id" (str "sign_off") (
                  field "type" (str "approval") (
                    field "needs" (arr (cons (str "prepare") nil)) (
                      field "config"
                        (obj (
                          field "prompt" (str "Approve production upgrade of the cluster?") (
                            field "approvers"
                              (arr (cons (str "ops-oncall") (cons (str "sre-lead") nil))) end)))
                        (field "on_error" (str "compensate") end))))))
              (cons
                (obj (
                  field "id" (str "apply") (
                    field "type" (str "shell") (
                      field "needs" (arr (cons (str "sign_off") nil)) (
                        field "config"
                          (obj
                            (field "cmd" (str "python -c \"print('applied after sign-off')\"") end))
                          (field "compensate"
                            (obj (
                              field "type" (str "shell") (
                                field "config"
                                  (obj (field "cmd" (str "python -c \"print('reverted')\"") end))
                                  end)))
                            end))))))
                nil))))
        end))
