-- ===== src/ContainerSync/Duplicates.antt =====
-- Two containers of one target: which of them the worker keeps.
-- About pkg/containersync/worker.go.
